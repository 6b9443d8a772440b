-- ===== src/PmmInit/Edges.antt =====
-- The arithmetic of a page range in a bitmap: the end bytes by their masks, those between whole.
use abel_os.Base.{
  ℕ, ◌+◌, ◌-◌, ◌*◌, ◌/◌, ◌%◌, ◌≤◌, ◌<◌, ◌≡◌, Bool, true, false, ◌&&◌, ◌||◌, arith, ltb, leb, ◌==◌,
  if◌then◌else◌,
}

-- Whether page `p` lies in the range from page `b` up to page `e`.
abbrev pub within : ℕ → ℕ → ℕ → Bool
within b e p = leb b p && ltb p e

-- The arithmetic of clearing within one byte: `old` is the page's bit before.
pub clear_one_bit :
    (old : Bool) (b e p len : ℕ)
    → b ≤ e
    → e ≤ 8 * len
    → b / 8 ≡ e / 8
    → (len ≤ p / 8 → old ≡ true)
    → (if p / 8 == b / 8
        then (if ltb (b / 8) len then old && (ltb (p % 8) (b % 8) || leb (e % 8) (p % 8)) else true)
        else old)
      ≡ (if within b e p then false else old)
clear_one_bit true b e p len h1 h2 h3 h4 = ground arith
clear_one_bit false b e p len h1 h2 h3 h4 = ground arith

-- The same where the range starts and ends in different bytes: first the two end bytes.
abbrev pub cleared_ends : Bool → ℕ → ℕ → ℕ → ℕ → Bool
cleared_ends old b e p len =
    let first =
      if p / 8 == b / 8
      then (if ltb (b / 8) len then old && ltb (p % 8) (b % 8) else true)
      else old in
    if p / 8 == e / 8
    then (if ltb (e / 8) len then first && leb (e % 8) (p % 8) else true)
    else first

pub clear_many_bit :
    (old : Bool) (b e p len : ℕ)
    → b / 8 < e / 8
    → e ≤ 8 * len
    → (len ≤ p / 8 → old ≡ true)
    → (if leb (b / 8 + 1) (p / 8) && ltb (p / 8) (b / 8 + 1 + (e / 8 - b / 8 - 1))
        then false
        else cleared_ends old b e p len)
      ≡ (if within b e p then false else old)
clear_many_bit true b e p len h1 h2 h3 = ground arith
clear_many_bit false b e p len h1 h2 h3 = ground arith

pub set_one_bit :
    (old : Bool) (b e p len : ℕ)
    → b ≤ e
    → e ≤ 8 * len
    → b / 8 ≡ e / 8
    → (len ≤ p / 8 → old ≡ true)
    → (if p / 8 == b / 8
        then (if ltb (b / 8) len then old || (leb (b % 8) (p % 8) && ltb (p % 8) (e % 8)) else true)
        else old)
      ≡ (within b e p || old)
set_one_bit true b e p len h1 h2 h3 h4 = ground arith
set_one_bit false b e p len h1 h2 h3 h4 = ground arith

abbrev pub filled_ends : Bool → ℕ → ℕ → ℕ → ℕ → Bool
filled_ends old b e p len =
    let first =
      if p / 8 == b / 8
      then (if ltb (b / 8) len then old || leb (b % 8) (p % 8) else true)
      else old in
    if p / 8 == e / 8
    then (if ltb (e / 8) len then first || ltb (p % 8) (e % 8) else true)
    else first

pub set_many_bit :
    (old : Bool) (b e p len : ℕ)
    → b / 8 < e / 8
    → e ≤ 8 * len
    → (len ≤ p / 8 → old ≡ true)
    → (if leb (b / 8 + 1) (p / 8) && ltb (p / 8) (b / 8 + 1 + (e / 8 - b / 8 - 1))
        then true
        else filled_ends old b e p len)
      ≡ (within b e p || old)
set_many_bit true b e p len h1 h2 h3 = ground arith
set_many_bit false b e p len h1 h2 h3 = ground arith
