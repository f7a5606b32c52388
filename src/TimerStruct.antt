-- ===== src/TimerStruct.antt =====
-- c/struct/main.c: structs that share a head, laid over one buffer.
pub mod Laws
mod Tests
use study_tips.Base.{ℕ, ◌+◌, ◌-◌, ◌^◌, Option, some, List, [], ◌∷◌, set, replicate}
use study_tips.Header.Memory.{Mem, ◌>>=◌}
use study_tips.Header.Block.{copy}
use study_tips.Header.Block.Fields.{load_le, store_le}

-- Where A has its fields; its `data` has no bytes of its own.
abbrev pub type_at : ℕ
type_at = 0

abbrev pub len_at : ℕ
len_at = 4

abbrev pub startup_id_at : ℕ
startup_id_at = 8

abbrev pub setup_id_at : ℕ
setup_id_at = 12

abbrev pub destroy_id_at : ℕ
destroy_id_at = 16

abbrev pub data_at : ℕ
data_at = 20

-- Where B has the fields behind its head, and how many bytes it has.
abbrev pub i_at : ℕ
i_at = 20

abbrev pub j_at : ℕ
j_at = 24

abbrev pub k_at : ℕ
k_at = 28

abbrev pub size_b : ℕ
size_b = 32

-- `foreach_timerid_field()`, with `sym = -1` for each of the three fields.
pub set_ids : Mem → Option Mem
set_ids m = do
  m1 ← store_le 4 m startup_id_at (2 ^ 32 - 1)
  m2 ← store_le 4 m1 setup_id_at (2 ^ 32 - 1)
  store_le 4 m2 destroy_id_at (2 ^ 32 - 1)

-- `src`, with the zero that ends it.
abbrev pub src : List ℕ
src = b'H' ∷ b'e' ∷ b'l' ∷ b'l' ∷ b'o' ∷ b' ' ∷ b'W' ∷ b'o' ∷ b'r' ∷ b'l' ∷ b'd' ∷ b'!' ∷ 0 ∷ []

-- What `f1`, `f2` and `f3` show of a struct: its type.
pub shown_type : Mem → Option ℕ
shown_type m = load_le 4 m type_at

-- `main`, from what `encodeBuf` holds before: the buffer at the end, and the types that are shown of the
-- structs `a`, `aa` and `c`.
pub main : Mem → Option (Mem × List ℕ)
main encode_buf = do
  m1 ← set_ids encode_buf
  aa1 ← set_ids (replicate data_at 0)
  m2 ← store_le 4 m1 type_at 1
  aa2 ← store_le 4 aa1 type_at 2
  c ← store_le 4 (replicate size_b 0) type_at 3
  type1 ← shown_type m2
  type2 ← shown_type aa2
  type3 ← shown_type c
  m3 ← copy m2 data_at src
  m4 ← copy m3 data_at src
  some (m4, type1 ∷ type2 ∷ type3 ∷ [])

-- `f4`, on the object that its argument points to: what it leaves there, and in `tC`. C has as many bytes
-- as B.
pub f4 : Mem → Option (Mem × Mem)
f4 at_c = do
  t_c ← some (replicate size_b 0)
  t_c2 ← some (replicate size_b 0)
  at_c' ← copy at_c 0 t_c
  t_c' ← copy t_c 0 t_c2
  some (at_c', t_c')
