-- ===== src/ThreeOpr/Laws.antt =====
-- The two ways of c/threeopr/main.c read inside the array.
use study_tips.Base.{◌%◌, ◌<◌, ◌≡◌, arith, ap, ◌∙◌, length, some, bit_and, if◌then◌else◌, ltb}
use study_tips.Base.Int.{ℤ}
use study_tips.Base.Bits.{bit_and_low}
use study_tips.Header.Memory.{Mem, load, byte, load-byte}
use study_tips.ThreeOpr.{arr_size, to_size, by_condition, by_mask}

-- In an array of 256 bytes, both ways read inside it for every argument: the condition gives the byte
-- at the index or 0, and the mask the byte at the index modulo 256, which is the same below 256.
pub by_mask-by_condition :
    (sz_arr : Mem) (argc : ℤ)
    → length sz_arr ≡ arr_size
    → (by_condition sz_arr argc
        ≡ some (if ltb (to_size argc) arr_size then byte sz_arr (to_size argc) else 0))
      × (by_mask sz_arr argc ≡ some (byte sz_arr (to_size argc % arr_size)))
      × (to_size argc < arr_size → by_mask sz_arr argc ≡ by_condition sz_arr argc)
unfolding by_condition by_mask
by_mask-by_condition sz_arr argc len =
    let n = to_size argc in
    let masked : bit_and n 255 ≡ n % 256 = bit_and_low 8 n in
    let inside = load-byte sz_arr (n % 256) (omega arith) in
    (
      ground (arith, load-byte sz_arr n),
      ap (load sz_arr) masked ∙ inside,
      λ below. ground (arith, masked, inside, load-byte sz_arr n),
    )
