-- ===== src/Mem/Tests.antt =====
-- Runs of the byte loops; the second copies between ranges that overlap.
use abel_os.Base.{ℕ, ◌≡◌, refl, List, [], ◌∷◌}
use abel_os.Mem.{memset_from, memset, memcpy_from, memcpy}

abbrev five_bytes : List ℕ
five_bytes = 10 ∷ 20 ∷ 30 ∷ 40 ∷ 50 ∷ []

memset_run : memset 7 1 3 five_bytes ≡ 10 ∷ 7 ∷ 7 ∷ 7 ∷ 50 ∷ []
unfolding memset memset_from
memset_run = refl

memcpy_run : memcpy 1 0 3 five_bytes ≡ 20 ∷ 30 ∷ 40 ∷ 40 ∷ 50 ∷ []
unfolding memcpy memcpy_from
memcpy_run = refl
