-- ===== src/Printk/Scroll.antt =====
-- What clearing and scrolling leave in each byte of the video memory.
use abel_os.Base.{
  inl, inr, ap, Bool-cases, ℕ, zero, suc, ◌+◌, ◌-◌, ◌*◌, ◌%◌, ◌≤◌, ◌<◌, ◌≡◌, refl, ◌∙◌, ◌&&◌, List,
  arith, ltb, leb, ◌==◌, if◌then◌else◌, get_or, set, length, length-set, get_or-set, length-if,
}
use abel_os.Mem.{memcpy}
use abel_os.Mem.Laws.{length-memcpy, get_or-memcpy}
use abel_os.Printk.{
  clear_line_from, clear_line, clear_lines, clear_screen, move_lines, scroll_screen,
}

-- A blank cell is a space and its attribute.
abbrev pub blank : ℕ → ℕ
blank k = if k % 2 == 0 then b' ' else 0x07

length-clear_line_from :
    (left j y : ℕ) (v : List ℕ) → length (clear_line_from left j y v) ≡ length v
unfolding clear_line_from
length-clear_line_from zero j y v = refl
length-clear_line_from (suc left) j y v =
    let a = set v (160 * y + 2 * j) b' ' in
    length-clear_line_from left (j + 1) y (set a (160 * y + j * 2 + 1) 0x07)
    ∙ (length-set a (160 * y + j * 2 + 1) 0x07 ∙ length-set v (160 * y + 2 * j) b' ')

get_or-clear_line_from :
    (left j y : ℕ) (v : List ℕ) (k : ℕ)
    → 160 * y + 2 * j + 2 * left ≤ length v
    → get_or (clear_line_from left j y v) k 0 ≡ (
        if leb (160 * y + 2 * j) k && ltb k (160 * y + 2 * j + 2 * left)
        then blank k
        else get_or v k 0)
unfolding clear_line_from
get_or-clear_line_from zero j y v k h = ground arith
get_or-clear_line_from (suc left) j y v k h =
    let p = 160 * y + 2 * j in
    let q = 160 * y + j * 2 + 1 in
    let a = set v p b' ' in
    let b = set a q 0x07 in
    let la = length-set v p b' ' in
    let lb = length-set a q 0x07 in
    let ih = get_or-clear_line_from left (j + 1) y b k (omega arith) in
    let ra = get_or-set v p k b' ' 0 in let rb = get_or-set a q k 0x07 0 in ground arith

pub length-clear_line : (y : ℕ) (v : List ℕ) → length (clear_line y v) ≡ length v
unfolding clear_line
length-clear_line y v = length-clear_line_from 80 0 y v

get_or-clear_line :
    (y : ℕ) (v : List ℕ) (k : ℕ)
    → 160 * y + 160 ≤ length v
    → get_or (clear_line y v) k 0
      ≡ (if leb (160 * y) k && ltb k (160 * y + 160) then blank k else get_or v k 0)
unfolding clear_line
get_or-clear_line y v k h = let e = get_or-clear_line_from 80 0 y v k (omega arith) in ground arith

pub length-clear_lines : (left i : ℕ) (v : List ℕ) → length (clear_lines left i v) ≡ length v
unfolding clear_lines
length-clear_lines zero i v = refl
length-clear_lines (suc left) i v =
    length-clear_lines left (i + 1) (clear_line i v) ∙ length-clear_line i v

get_or-clear_lines :
    (left i : ℕ) (v : List ℕ) (k : ℕ)
    → 160 * (i + left) ≤ length v
    → get_or (clear_lines left i v) k 0
      ≡ (if leb (160 * i) k && ltb k (160 * (i + left)) then blank k else get_or v k 0)
unfolding clear_lines
get_or-clear_lines zero i v k h = ground arith
get_or-clear_lines (suc left) i v k h =
    let l = length-clear_line i v in
    let ih = get_or-clear_lines left (i + 1) (clear_line i v) k (omega arith) in
    let one = get_or-clear_line i v k (omega arith) in ground arith

length-move_lines : (left i times : ℕ) (v : List ℕ) → length (move_lines left i times v) ≡ length v
unfolding move_lines
length-move_lines zero i times v = refl
length-move_lines (suc left) i times v =
    let v' = memcpy (times * 160 + i * 160) (i * 160) 160 v in
    length-move_lines left (i + 1) times v' ∙ length-memcpy (times * 160 + i * 160) (i * 160) 160 v

get_or-move_lines :
    (left i times : ℕ) (v : List ℕ) (k : ℕ)
    → 160 * (i + left + times) ≤ length v
    → get_or (move_lines left i times v) k 0 ≡ (
        if leb (160 * i) k && ltb k (160 * (i + left))
        then get_or v (k + 160 * times) 0
        else get_or v k 0)
unfolding move_lines
get_or-move_lines zero i times v k h = ground arith
get_or-move_lines (suc left) i times v k h =
    let v' = memcpy (times * 160 + i * 160) (i * 160) 160 v in
    let l = length-memcpy (times * 160 + i * 160) (i * 160) 160 v in
    let ih = get_or-move_lines left (i + 1) times v' k (omega arith) in
    let here =
      get_or-memcpy (times * 160 + i * 160) (i * 160) 160 v k (omega arith) (omega arith) in
    let there =
      get_or-memcpy (times * 160 + i * 160) (i * 160) 160 v (k + 160 * times) (omega arith)
        (omega arith) in
    elim (Bool-cases (leb (160 * i) k)) [
      | inl low ↦
          let e : times * 160 + i * 160 + (k - i * 160) ≡ k + 160 * times = ground arith in
          let here' = ap (λ x. get_or v x 0) e in ground arith
      | inr high ↦ ground arith
    ]

pub length-scroll_screen : (times : ℕ) (v : List ℕ) → length (scroll_screen times v) ≡ length v
unfolding scroll_screen clear_screen
length-scroll_screen times v =
    length-if (leb 25 times) (clear_lines 25 0 v)
      (clear_lines times (25 - times) (move_lines (25 - times) 0 times v)) (length v)
      (length-clear_lines 25 0 v)
      (length-clear_lines times (25 - times) (move_lines (25 - times) 0 times v)
        ∙ length-move_lines (25 - times) 0 times v)

-- On a screen of 4000 bytes, `scroll_screen` moves each line up by the number given, however large,
-- and leaves blank cells in the lines that become free.
pub get_or-scroll_screen :
    (times : ℕ) (v : List ℕ) (k : ℕ)
    → length v ≡ 4000
    → k < 4000
    → get_or (scroll_screen times v) k 0
      ≡ (if ltb (k + 160 * times) 4000 then get_or v (k + 160 * times) 0 else blank k)
unfolding scroll_screen clear_screen
get_or-scroll_screen times v k full inside =
    let all = get_or-clear_lines 25 0 v k (omega arith) in
    let v' = move_lines (25 - times) 0 times v in
    let l = length-move_lines (25 - times) 0 times v in
    elim (Bool-cases (leb 25 times)) [
      | inl far ↦ rw far (ground arith)
      | inr near ↦
          let le : times < 25 = ground arith in
          let cleared = get_or-clear_lines times (25 - times) v' k (omega arith) in
          let moved = get_or-move_lines (25 - times) 0 times v k (omega arith) in
          rw near (ground arith)
    ]
