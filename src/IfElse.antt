-- ===== src/IfElse.antt =====
-- c/ifelse/main.c: two ways to fill a second iovec if there is data for it.
pub mod Laws
use study_tips.Base.{ℕ, Option, none, some}

-- The buffers of `main`.
pub data Buffer : Type 0 where
  header data_buffer : Buffer

pub record Iovec : Type 0 where
  pub iov_base : Option Buffer
  pub iov_len : ℕ

-- `iovecs`, and how many of them are filled.
pub record Filled : Type 0 where
  pub first : Iovec
  pub second : Iovec
  pub iov_num : ℕ

abbrev pub empty_iovec : Iovec
empty_iovec = record { iov_base = none; iov_len = 0 }

-- Behind the two assignments to `iovecs[0]`.
abbrev pub start : Filled
start = record {
  first = record { iov_base = some header; iov_len = 32 };
  second = empty_iovec;
  iov_num = 0;
}

-- An assignment before the test, and one more inside.
pub assign_first : Option Buffer → ℕ → Filled → Filled
assign_first pc_data data_len f = elim pc_data [
  | none ↦ record f { iov_num = 1 }
  | some data' ↦ record f {
    second = record { iov_base = some data'; iov_len = data_len };
    iov_num = 2;
  }
]

-- An assignment in each branch.
pub assign_in_branches : Option Buffer → ℕ → Filled → Filled
assign_in_branches pc_data data_len f = elim pc_data [
  | none ↦ record f { iov_num = 1 }
  | some data' ↦ record f {
    second = record { iov_base = some header; iov_len = data_len };
    iov_num = 2;
  }
]

-- What each of the two leaves in `main`, the second behind the first.
pub main : Option Buffer → ℕ → Filled × Filled
main pc_data data_len =
    let f = assign_first pc_data data_len start in (f, assign_in_branches pc_data data_len f)
