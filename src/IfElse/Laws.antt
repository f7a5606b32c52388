-- ===== src/IfElse/Laws.antt =====
-- Where the two ways of c/ifelse/main.c agree.
use study_tips.Base.{ℕ, ◌≡◌, ◌↔◌, ◌⊎◌, inl, inr, refl, Option, none, some, ap}
use study_tips.IfElse.{Buffer, header, data_buffer, assign_first, assign_in_branches, main}

-- Both ways of `main` count the same number of iovecs, with the same lengths. They leave the same buffers
-- just if there is no data or it is the header: the second way puts the header where the data belongs.
pub main_agrees :
    (pc_data : Option Buffer) (data_len : ℕ)
    → let (a, b) = main pc_data data_len in
      (a.iov_num ≡ b.iov_num)
      × (a.first ≡ b.first)
      × (a.second.iov_len ≡ b.second.iov_len)
      × ((a ≡ b) ↔ ((pc_data ≡ none) ⊎ (pc_data ≡ some header)))
unfolding main assign_first assign_in_branches
main_agrees none data_len = (refl, refl, refl, ((λ e. inl refl), (λ e. refl)))
main_agrees (some header) data_len = (refl, refl, refl, ((λ e. inr refl), (λ e. refl)))
main_agrees (some data_buffer) data_len = (
  refl,
  refl,
  refl,
  (
    (λ e. inr (ap (λ f. f.second.iov_base) e)),
    (λ e. elim e [ inl n ↦ absurd (cc n) | inr n ↦ absurd (cc n) ]),
  ),
)
