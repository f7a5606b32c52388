-- ===== src/TimerStruct/Laws.antt =====
-- What `main` of c/struct/main.c leaves in its buffer.
use study_tips.Base.{
  ℕ, zero, suc, ◌+◌, ◌-◌, ◌%◌, ◌^◌, ◌≤◌, ◌<◌, ◌≡◌, ◌⊎◌, inl, inr, refl, ap, ◌∙◌, arith, Option,
  some, List, [], ◌∷◌, length, replicate,
}
use study_tips.Header.Memory.{byte-replicate_zero, Mem, byte, IsBytes, all_bytes-IsBytes}
use study_tips.Header.Block.Writes.{copy-Writes}
use study_tips.Header.Block.Fields.{store_le, word, load_le-word, word_ext, store_le-Stored}
use study_tips.TimerStruct.{
  f4, set_ids, src, shown_type, main, size_b, type_at, startup_id_at, setup_id_at, destroy_id_at,
  i_at, j_at, k_at, len_at,
}

-- The three fields are all ones, and nothing else has changed.
record HasIds (m : Mem) (call : Option Mem) : Type 0 where
  out : Mem
  returns : call ≡ some out
  same_length : length out ≡ length m
  startup : word 4 out startup_id_at ≡ 2 ^ 32 - 1
  setup : word 4 out setup_id_at ≡ 2 ^ 32 - 1
  destroy : word 4 out destroy_id_at ≡ 2 ^ 32 - 1
  others : (j : ℕ) → (j < 8) ⊎ (20 ≤ j) → byte out j ≡ byte m j

set_ids-HasIds : (m : Mem) → 20 ≤ length m → HasIds m (set_ids m)
unfolding set_ids
set_ids-HasIds m h =
    let s1 = store_le-Stored 4 m 8 (2 ^ 32 - 1) (omega arith) in
    let s2 = store_le-Stored 4 s1.out 12 (2 ^ 32 - 1) (omega (arith, s1.same_length)) in
    let s3 =
      store_le-Stored 4 s2.out 16 (2 ^ 32 - 1) (omega (arith, s1.same_length, s2.same_length)) in
    record {
      out = s3.out;
      returns = rw (s1.returns, s2.returns) s3.returns;
      same_length = s3.same_length ∙ s2.same_length ∙ s1.same_length;
      startup =
          word_ext 4 s2.out s3.out 8 (λ j a b. s3.others j (inl (omega arith)))
          ∙ word_ext 4 s1.out s2.out 8 (λ j a b. s2.others j (inl (omega arith)))
          ∙ s1.field;
      setup = word_ext 4 s2.out s3.out 12 (λ j a b. s3.others j (inl (omega arith))) ∙ s2.field;
      destroy = s3.field;
      others = λ j l.
          s3.others j (ground arith) ∙ s2.others j (ground arith) ∙ s1.others j (ground arith);
    }

-- A struct whose three fields and whose type have been set, and the type that is shown of it.
record HasHead (m : Mem) (v : ℕ) (ids : Option Mem) : Type 0 where
  mid : Mem
  out : Mem
  ids_set : ids ≡ some mid
  type_set : store_le 4 mid type_at v ≡ some out
  shown : shown_type out ≡ some (v % 2 ^ 32)
  same_length : length out ≡ length m
  type : word 4 out type_at ≡ v % 2 ^ 32
  startup : word 4 out startup_id_at ≡ 2 ^ 32 - 1
  setup : word 4 out setup_id_at ≡ 2 ^ 32 - 1
  destroy : word 4 out destroy_id_at ≡ 2 ^ 32 - 1
  others : (j : ℕ) → ((4 ≤ j) × (j < 8)) ⊎ (20 ≤ j) → byte out j ≡ byte m j

head_lem : (m : Mem) (v : ℕ) → 20 ≤ length m → HasHead m v (set_ids m)
unfolding shown_type
head_lem m v h =
    let ids = set_ids-HasIds m h in
    let s = store_le-Stored 4 ids.out 0 v (omega (arith, ids.same_length)) in
    let kept : (p : ℕ) → 4 ≤ p → word 4 s.out p ≡ word 4 ids.out p =
      λ p l. word_ext 4 ids.out s.out p (λ j a b. s.others j (inr (omega arith))) in
    record {
      mid = ids.out;
      out = s.out;
      ids_set = ids.returns;
      type_set = s.returns;
      shown =
          load_le-word 4 s.out 0 (omega (arith, s.same_length, ids.same_length)) ∙ ap some s.field;
      same_length = s.same_length ∙ ids.same_length;
      type = s.field;
      startup = kept 8 (omega arith) ∙ ids.startup;
      setup = kept 12 (omega arith) ∙ ids.setup;
      destroy = kept 16 (omega arith) ∙ ids.destroy;
      others = λ j l. s.others j (ground arith) ∙ ids.others j (ground arith);
    }

src-IsBytes : IsBytes src
src-IsBytes = all_bytes-IsBytes src refl

-- What `main` leaves: the text over B's own fields and one byte more, the head in front of it.
pub record Encoded (buf : Mem) (call : Option (Mem × List ℕ)) : Type 0 where
  pub out : Mem
  pub returns : call ≡ some (out, 1 ∷ 2 ∷ 3 ∷ [])
  pub same_length : length out ≡ length buf
  pub type : word 4 out type_at ≡ 1
  pub len : word 4 out len_at ≡ word 4 buf len_at
  pub startup : word 4 out startup_id_at ≡ 2 ^ 32 - 1
  pub setup : word 4 out setup_id_at ≡ 2 ^ 32 - 1
  pub destroy : word 4 out destroy_id_at ≡ 2 ^ 32 - 1
  pub field_i : word 4 out i_at ≡ word 4 src 0
  pub field_j : word 4 out j_at ≡ word 4 src 4
  pub field_k : word 4 out k_at ≡ word 4 src 8
  pub behind_b : byte out size_b ≡ 0
  pub others : (j : ℕ) → size_b < j → byte out j ≡ byte buf j

-- A word of the text, where the text stands.
word-moved :
    (n : ℕ) (m : Mem) (p q : ℕ)
    → ((i : ℕ) → i < 13 → byte m (20 + i) ≡ byte src i)
    → p ≡ 20 + q
    → q + n ≤ 13
    → word n m p ≡ word n src q
unfolding word
word-moved zero m p q same e h = refl
word-moved (suc n) m p q same e h = omega (
  arith,
  ap (byte m) e ∙ same q (omega arith),
  word-moved n m (p + 1) (q + 1) same (omega arith) (omega arith),
)

pub main-Encoded : (buf : Mem) → 33 ≤ length buf → Encoded buf (main buf)
unfolding main shown_type
main-Encoded buf h =
    let a = head_lem buf 1 (omega arith) in
    let aa = head_lem (replicate 20 0) 2 (omega arith) in
    let c = store_le-Stored 4 (replicate 32 0) 0 3 (omega arith) in
    let c_type : shown_type c.out ≡ some 3 =
      load_le-word 4 c.out 0 (omega (arith, c.same_length)) ∙ ap some c.field in
    let once = copy-Writes a.out 20 src (omega (arith, a.same_length)) in
    let twice = copy-Writes once.out 20 src (omega (arith, a.same_length, once.same_length)) in
    let text : (i : ℕ) → i < 13 → byte twice.out (20 + i) ≡ byte src i =
      λ i l. omega (arith, twice.written i l, src-IsBytes i) in
    let before : (j : ℕ) → (j < 20) ⊎ (33 ≤ j) → byte twice.out j ≡ byte a.out j =
      λ j l. twice.others j l ∙ once.others j l in
    let head : (p : ℕ) → p + 4 ≤ 20 → word 4 twice.out p ≡ word 4 a.out p =
      λ p l. word_ext 4 a.out twice.out p (λ j l1 l2. before j (inl (omega arith))) in
    record {
      out = twice.out;
      returns = rw (
        a.ids_set, aa.ids_set, a.type_set, aa.type_set, c.returns, a.shown, aa.shown, c_type,
        once.returns, twice.returns,
      );
      same_length = twice.same_length ∙ once.same_length ∙ a.same_length;
      type = head 0 (omega arith) ∙ a.type;
      len = head 4 (omega arith) ∙ word_ext 4 buf a.out 4 (λ j l1 l2. a.others j (inl (l1, l2)));
      startup = head 8 (omega arith) ∙ a.startup;
      setup = head 12 (omega arith) ∙ a.setup;
      destroy = head 16 (omega arith) ∙ a.destroy;
      field_i = word-moved 4 twice.out 20 0 text refl (omega arith);
      field_j = word-moved 4 twice.out 24 4 text refl (omega arith);
      field_k = word-moved 4 twice.out 28 8 text refl (omega arith);
      behind_b = text 12 (omega arith);
      others = λ j l. before j (inr (omega arith)) ∙ a.others j (inr (omega arith));
    }

-- `f4` clears the struct that it is given, and nothing behind it.
pub record IsCleared (at_c : Mem) (call : Option (Mem × Mem)) : Type 0 where
  pub out : Mem
  pub t_c : Mem
  pub returns : call ≡ some (out, t_c)
  pub same_length : length out ≡ length at_c
  pub zeros : (i : ℕ) → i < size_b → byte out i ≡ 0
  pub others : (j : ℕ) → size_b ≤ j → byte out j ≡ byte at_c j

pub f4-IsCleared : (at_c : Mem) → size_b ≤ length at_c → IsCleared at_c (f4 at_c)
unfolding f4
f4-IsCleared at_c h =
    let w = copy-Writes at_c 0 (replicate size_b 0) h in
    let local = copy-Writes (replicate size_b 0) 0 (replicate size_b 0) (omega arith) in
    record {
      out = w.out;
      t_c = local.out;
      returns = rw (w.returns, local.returns) refl;
      same_length = w.same_length;
      zeros = λ i l.
          let place : byte w.out i ≡ byte w.out (0 + i) = ap (byte w.out) (omega arith) in
          omega (arith, place, w.written i l, byte-replicate_zero 32 i);
      others = λ j l. w.others j (inr l);
    }
