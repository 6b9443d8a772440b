-- ===== src/Mem/Strings.antt =====
-- `strlen` of a string in memory.
use abel_os.Base.{
  ℕ, ◌+◌, ◌<◌, ◌^◌, ◌≡◌, ◌≢◌, false, List, [], ◌∷◌, ◌++◌, some, arith, ◌==◌, length, u32,
}
use abel_os.Mem.{strlen_from, strlen}

-- A string without a null byte.
abbrev pub IsString : List ℕ → Type 0
IsString [] = Unit {0}
IsString (b ∷ str) = (b ≢ 0) × IsString str

strlen_from-length :
    (str rest : List ℕ) (res : ℕ)
    → IsString str
    → res + length str < 2 ^ 32
    → strlen_from (str ++ (0 ∷ rest)) res ≡ res + length str
unfolding strlen_from
strlen_from-length [] rest res h low = omega arith
strlen_from-length (b ∷ str) rest res h low =
    let live : (b == 0) ≡ false = let ne = h.0 in ground arith in
    let step : u32 (res + 1) ≡ res + 1 = omega arith in
    let ih = strlen_from-length str rest (res + 1) h.1 (omega arith) in
    rw (live, step) (omega (arith, ih))

-- The length of a string of less than 4 GiB, whatever stands behind its terminator.
pub strlen-length :
    (str rest : List ℕ)
    → IsString str
    → length str < 2 ^ 32
    → strlen (some (str ++ (0 ∷ rest))) ≡ length str
unfolding strlen
strlen-length str rest h low = let e = strlen_from-length str rest 0 h (omega arith) in omega arith
