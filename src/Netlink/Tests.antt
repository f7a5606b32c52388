-- ===== src/Netlink/Tests.antt =====
-- c/netlink/getroute.c on replies that are lists of messages and attributes.
use study_tips.Base.{
  ℕ, ◌+◌, ◌*◌, ◌/◌, ◌^◌, ◌<◌, ◌≤◌, ◌⊎◌, ◌≢◌, ◌≡◌, refl, arith, Bool, true, false, ◌&&◌, leb,
  if◌then◌else◌, ◌==◌, length, Option, some, none, List, [], ◌∷◌,
}
use study_tips.Base.Int.{ℤ, pos, negsuc, minus_one, sub_ℕ}
use study_tips.Os.{IsClean, status}
use study_tips.Netlink.Macros.{Macros, AreShorter, remaining}
use study_tips.Netlink.Attributes.{
  IsShown, parse_attributes, refused, nl_filter_route, nl_filter_route-IsShown,
}
use study_tips.Netlink.Messages.{walk, act, is_expected}
use study_tips.Netlink.Messages.Laws.{IsWalked, walk-IsWalked, here, next}
use study_tips.Netlink.Program.{call_descriptors, Replies, main, with_options, ask, request, finish}
use study_tips.Netlink.Program.Laws.{
  HasSucceeded, getroute-IsClean, getroute-HasSucceeded, getroute_stopped,
}

record Cell : Type 0 where
  kind : ℕ
  size : ℕ
  pid : ℕ
  error : ℤ
  attributes : List (ℕ × ℕ)  -- types and sizes

abbrev align : ℕ → ℕ
align n = (n + 3) / 4 * 4

abbrev cell_ok : List Cell → ℤ → Bool
cell_ok [] len = false
cell_ok (c ∷ cs) (negsuc n) = false
cell_ok (c ∷ cs) (pos n) = leb 16 c.size && leb c.size n

abbrev cell_next : List Cell → ℤ → List Cell × ℤ
cell_next [] len = ([], len)
cell_next (c ∷ cs) (negsuc n) = (cs, negsuc n)
cell_next (c ∷ cs) (pos n) = (cs, sub_ℕ n (align c.size))

abbrev attribute_ok : List (ℕ × ℕ) → ℤ → Bool
attribute_ok [] len = false
attribute_ok (a ∷ rest) (negsuc n) = false
attribute_ok (a ∷ rest) (pos n) = leb 4 a.1 && leb a.1 n

abbrev attribute_next : List (ℕ × ℕ) → ℤ → List (ℕ × ℕ) × ℤ
attribute_next [] len = ([], len)
attribute_next (a ∷ rest) (negsuc n) = (rest, negsuc n)
attribute_next (a ∷ rest) (pos n) = (rest, sub_ℕ n (align a.1))

abbrev head_of {ℓ} : {A : Type ℓ} → A → List A → A
head_of d [] = d
head_of d (x ∷ xs) = x

abbrev no_cell : Cell
no_cell = record { kind = 0; size = 0; pid = 0; error = pos 0; attributes = [] }

abbrev sized : ℕ → List ℕ → Option (List ℕ)
sized n a = if length a == n then some a else none

abbrev macros : Macros
macros = record {
  Message = List Cell;
  Attribute = List (ℕ × ℕ);
  nlmsg_ok = cell_ok;
  nlmsg_next = cell_next;
  nlmsg_type = λ m. (head_of no_cell m).kind;
  nlmsg_len = λ m. (head_of no_cell m).size;
  nlmsg_pid = λ m. (head_of no_cell m).pid;
  error_code = λ m. (head_of no_cell m).error;
  rtm_rta = λ m. (head_of no_cell m).attributes;
  rta_ok = attribute_ok;
  rta_next = attribute_next;
  rta_type = λ a. (head_of (0, 0) a).0;
  rta_max = 30;
  rta_table = 15;
  rta_iif = 3;
  rta_oif = 4;
  rta_src = 2;
  rta_dst = 1;
  nlmsg_done = 3;
  nlmsg_error = 2;
  rtm_newroute = 24;
  rtm_getroute = 26;
  af_inet = 2;
  af_inet6 = 10;
  nlmsg_length = λ n. 16 + n;
  rta_length = λ n. 4 + n;
  sizeof_rtmsg = 12;
  sizeof_nlmsgerr = 20;
  nlm_f_request = 1;
  nlm_f_ack = 4;
  pton6 = sized 16;
  pton4 = sized 4;
}

macros-AreShorter : AreShorter macros
macros-AreShorter = record {
  nlmsg_next_shorter = cell_next_shorter;
  rta_next_shorter = attribute_next_shorter;
}
  where
    cell_next_shorter :
        (h : List Cell) (len : ℤ)
        → cell_ok h len ≡ true
        → remaining (cell_next h len).1 < remaining len
    cell_next_shorter [] len e = absurd (cc e)
    cell_next_shorter (c ∷ cs) (negsuc n) e = absurd (cc e)
    cell_next_shorter (c ∷ cs) (pos n) e = ground arith

    attribute_next_shorter :
        (a : List (ℕ × ℕ)) (len : ℤ)
        → attribute_ok a len ≡ true
        → remaining (attribute_next a len).1 < remaining len
    attribute_next_shorter [] len e = absurd (cc e)
    attribute_next_shorter (a ∷ rest) (negsuc n) e = absurd (cc e)
    attribute_next_shorter (a ∷ rest) (pos n) e = ground arith

-- A route message with two attributes of one type.
abbrev route_cell : Cell
route_cell = record {
  kind = 24;
  size = 44;
  pid = 1234;
  error = pos 0;
  attributes = (15, 8) ∷ (15, 8) ∷ [];
}

abbrev done_cell : Cell
done_cell = record { kind = 3; size = 20; pid = 1234; error = pos 0; attributes = [] }

nl_filter_route-IsShown_example :
    let n : List Cell = route_cell ∷ [] in
    ((nl_filter_route macros n 24 ≡ some refused)
      × ((route_cell.kind ≢ 24) ⊎ ((44 < 28) ⊎ (28 + 2 ^ 31 ≤ 44))))
    ⊎ ((route_cell.kind ≡ 24)
        × (28 ≤ 44)
        × (44 < 28 + 2 ^ 31)
        × IsShown macros n (nl_filter_route macros n 24))
nl_filter_route-IsShown_example =
    nl_filter_route-IsShown macros macros-AreShorter (route_cell ∷ []) 24 (omega arith)
      (omega arith)

-- The length is negative as an int.
too_long : nl_filter_route macros (record route_cell { size = 2 ^ 31 + 28 } ∷ []) 24 ≡ some refused
unfolding nl_filter_route
too_long = refl

walk-IsWalked_example :
    IsWalked macros 7 1234
      (route_cell ∷ done_cell ∷ [])
      (pos 64)
      (walk macros 65 7 1234 (route_cell ∷ done_cell ∷ []) (pos 64))
walk-IsWalked_example =
    walk-IsWalked macros macros-AreShorter 65 7 1234 (route_cell ∷ done_cell ∷ []) (pos 64)
      (omega arith)

abbrev replies : List Cell → ℤ → Replies macros
replies cells len = record {
  on_socket = pos 3;
  on_send = pos 100;
  on_poll = pos 1;
  on_recv = len;
  first = cells;
  self_pid = 7;
}

abbrev arguments : List (List ℕ)
arguments = [] ∷ (127 ∷ 0 ∷ 0 ∷ 1 ∷ []) ∷ []

getroute-IsClean_example :
    IsClean (main macros [] arguments true (replies (route_cell ∷ []) (pos 44)))
getroute-IsClean_example =
    getroute-IsClean macros macros-AreShorter [] arguments true (replies (route_cell ∷ []) (pos 44))

exits_with_0 :
    status (main macros [] arguments true (replies (route_cell ∷ []) (pos 44))) ≡ some (pos 0)
unfolding main with_options ask request finish walk act is_expected nl_filter_route parse_attributes
exits_with_0 = refl

getroute-HasSucceeded_example :
    HasSucceeded macros macros-AreShorter (replies (route_cell ∷ []) (pos 44)) 1234
getroute-HasSucceeded_example =
    getroute-HasSucceeded macros macros-AreShorter [] arguments true
      (replies (route_cell ∷ []) (pos 44)) exits_with_0

-- The route message is for another process here.
abbrev two_cells : List Cell
two_cells = record route_cell { pid = 99 } ∷ done_cell ∷ []

getroute_stopped_example :
    status (main macros [] arguments true (replies two_cells (pos 64))) ≡ some minus_one
getroute_stopped_example =
    getroute_stopped macros macros-AreShorter [] arguments true (replies two_cells (pos 64))
      (two_cells ∷ []) (done_cell ∷ []) (pos 20)
      (next two_cells (pos 64) refl (here (done_cell ∷ []) (pos 20))) refl refl

-- NLMSG_DONE for another process ends nothing.
done_for_other :
    status (main macros [] arguments true (replies (record done_cell { pid = 99 } ∷ []) (pos 20)))
    ≡ some (pos 0)
unfolding main with_options ask request finish walk act is_expected
done_for_other = refl
