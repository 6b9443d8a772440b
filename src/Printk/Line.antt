-- ===== src/Printk/Line.antt =====
-- A text that fits into the line of the cursor.
use abel_os.Base.{
  ℕ, suc, ◌+◌, ◌-◌, ◌*◌, ◌/◌, ◌%◌, ◌<◌, ◌≡◌, refl, ◌∙◌, true, false, ◌&&◌, List, [], ◌∷◌, arith,
  ltb, leb, ◌==◌, if◌then◌else◌, length, set, get_or, get_or-set, u16, inl, inr, Bool-cases,
}
use abel_os.Printk.{
  Console, update_cursor_vga, at_least, advance_char_n, advance_char, put_char_at, put_char,
  print_str,
}
use abel_os.Printk.Screen.{OnScreen, put_char-OnScreen, offset_lem}

-- No byte of the text moves the cursor by itself.
abbrev pub IsVisible : List ℕ → Type 0
IsVisible [] = Unit {0}
IsVisible (ch ∷ t) = ((ch == b'\n') ≡ false) × ((ch == b'\t') ≡ false) × IsVisible t

put_char-cell :
    (ch : ℕ) (c : Console)
    → OnScreen c
    → (ch == b'\n') ≡ false
    → (ch == b'\t') ≡ false
    → c.cur_pos_x + 1 < 80
    → ((put_char ch c).video ≡ set c.video (160 * c.cur_pos_y + 2 * c.cur_pos_x) ch)
      × ((put_char ch c).cur_pos_x ≡ c.cur_pos_x + 1)
      × ((put_char ch c).cur_pos_y ≡ c.cur_pos_y)
unfolding put_char put_char_at advance_char advance_char_n update_cursor_vga
put_char-cell ch c v newline tab inside =
    let x = v.column in
    let y = v.line in
    let cell = offset_lem c.cur_pos_x c.cur_pos_y x y in
    let hits : ltb (160 * c.cur_pos_y + 2 * c.cur_pos_x) 4000 ≡ true = ground arith in
    let step : u16 (c.cur_pos_x + 1) ≡ c.cur_pos_x + 1 = omega arith in
    let stays : at_least 80 (c.cur_pos_x + 1) ≡ false = ground arith in
    rw (newline, tab) (rw cell (rw hits (rw (step, stays) (refl, refl, refl))))

-- One byte written in front of the cells of the others.
cells-cons :
    (at k ch : ℕ) (t v : List ℕ)
    → at % 2 ≡ 0
    → at < length v
    → (if leb (at + 2) k && ltb k (at + 2 + 2 * length t) && (k % 2 == 0)
        then get_or t ((k - (at + 2)) / 2) 0
        else get_or (set v at ch) k 0)
      ≡ (if leb at k && ltb k (at + 2 * suc (length t)) && (k % 2 == 0)
          then get_or (ch ∷ t) ((k - at) / 2) 0
          else get_or v k 0)
cells-cons at k ch t v even inside =
    let written = get_or-set v at k ch 0 in
    elim (Bool-cases (leb (at + 2) k)) [
      | inl behind ↦
          let next : (k - at) / 2 ≡ suc ((k - (at + 2)) / 2) = ground arith in
          rw next (ground arith)
      | inr front ↦ elim (Bool-cases (k == at)) [
        | inl here ↦ let zero_lem : (k - at) / 2 ≡ 0 = ground arith in rw zero_lem (ground arith)
        | inr other ↦ ground arith
      ]
    ]

-- A text of visible bytes that ends in front of the last column stands in the cells from the cursor on,
-- every other byte of the video memory is as before, and the cursor stands behind the text.
pub print_str-cells :
    (t : List ℕ) (c : Console) (k : ℕ)
    → OnScreen c
    → IsVisible t
    → c.cur_pos_x + length t < 80
    → let at = 160 * c.cur_pos_y + 2 * c.cur_pos_x in
      (get_or (print_str t c).video k 0 ≡ (
        if leb at k && ltb k (at + 2 * length t) && (k % 2 == 0)
        then get_or t ((k - at) / 2) 0
        else get_or c.video k 0))
      × ((print_str t c).cur_pos_x ≡ c.cur_pos_x + length t)
      × ((print_str t c).cur_pos_y ≡ c.cur_pos_y)
unfolding print_str
print_str-cells [] c k v vis fits = (ground arith, omega arith, refl)
print_str-cells (ch ∷ t) c k v vis fits =
    let c' = put_char ch c in
    let (video, x, y) = put_char-cell ch c v vis.0 vis.1 (omega arith) in
    let (ih, ix, iy) = print_str-cells t c' k (put_char-OnScreen ch c v) vis.2 (omega arith) in
    let at = 160 * c.cur_pos_y + 2 * c.cur_pos_x in
    let column = v.column in
    let line = v.line in
    let full = v.full in
    let next : 160 * c'.cur_pos_y + 2 * c'.cur_pos_x ≡ at + 2 = omega arith in
    (
      ih ∙ rw (next, video) (cells-cons at k ch t c.video (omega arith) (omega arith)),
      omega arith,
      iy ∙ y,
    )
