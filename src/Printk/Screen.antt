-- ===== src/Printk/Screen.antt =====
-- Where the cursor and the writes stay.
use abel_os.Base.{
  ℕ, ◌+◌, ◌-◌, ◌*◌, ◌/◌, ◌^◌, ◌≤◌, ◌<◌, ◌≡◌, refl, ◌∙◌, true, not, ◌&&◌, List, [], ◌∷◌, arith, ltb,
  ◌==◌, length, length-set, inl, inr, Bool-cases, u16, u32,
}
use abel_os.Printk.{
  Console, update_cursor_vga, is_negative, at_least, previous, advance_line, wrap_line,
  advance_char_n, advance_char, widen, poke, put_char_at, put_char, remove_char, print_str,
}
use abel_os.Printk.Scroll.{length-scroll_screen}

-- The cursor is on the screen, and no write has missed it.
pub record OnScreen (c : Console) : Type 0 where
  pub full : length c.video ≡ 4000
  pub column : c.cur_pos_x < 80
  pub line : c.cur_pos_y < 25
  pub no_stray : c.stray ≡ []

update_cursor_vga-OnScreen : (c : Console) → OnScreen c → OnScreen (update_cursor_vga c)
unfolding update_cursor_vga
update_cursor_vga-OnScreen c v = record {
  full = v.full;
  column = v.column;
  line = v.line;
  no_stray = v.no_stray;
}

pub advance_line-OnScreen : (c : Console) → OnScreen c → OnScreen (advance_line c)
unfolding advance_line
advance_line-OnScreen c v =
    let line = v.line in
    elim (Bool-cases (at_least 24 c.cur_pos_y)) [
      | inl last ↦ rw last (
          update_cursor_vga-OnScreen _ (record {
            full = length-scroll_screen 1 c.video ∙ v.full;
            column = omega arith;
            line = omega arith;
            no_stray = v.no_stray;
          }))
      | inr inner ↦
          let above : c.cur_pos_y < 24 = ground arith in
          rw inner (
            update_cursor_vga-OnScreen _ (record {
              full = v.full;
              column = omega arith;
              line = omega arith;
              no_stray = v.no_stray;
            }))
    ]

wrap_line-OnScreen : (x y : ℕ) (c : Console) → y < 2 ^ 15 → OnScreen c → OnScreen (wrap_line x y c)
wrap_line-OnScreen x y c small v = elim (Bool-cases (at_least 25 y)) [
  | inl below ↦ rw below (record {
    full = length-scroll_screen (y - 24) c.video ∙ v.full;
    column = omega arith;
    line = omega arith;
    no_stray = v.no_stray;
  })
  | inr fits ↦
      let line : y < 25 = ground arith in
      rw fits (record { full = v.full; column = omega arith; line = line; no_stray = v.no_stray })
]

pub advance_char_n-OnScreen :
    (n : ℕ) (c : Console) → n ≤ 80 → OnScreen c → OnScreen (advance_char_n n c)
unfolding advance_char_n
advance_char_n-OnScreen n c small v =
    let column = v.column in
    let line = v.line in
    let x : u16 (c.cur_pos_x + n) ≡ c.cur_pos_x + n = omega arith in
    update_cursor_vga-OnScreen _ (elim (Bool-cases (at_least 80 (u16 (c.cur_pos_x + n)))) [
      | inl over ↦ rw over (
          wrap_line-OnScreen (u16 (c.cur_pos_x + n))
            (u16 (c.cur_pos_y + u16 (c.cur_pos_x + n) / 80)) c (omega arith) v)
      | inr inside ↦
          rw inside
            (record { full = v.full; column = ground arith; line = line; no_stray = v.no_stray })
    ])

poke-OnScreen : (i v : ℕ) (c : Console) → i < 4000 → OnScreen c → OnScreen (poke i v c)
poke-OnScreen i ch c low v =
    let inside : ltb i 4000 ≡ true = ground arith in
    rw inside (record {
      full = length-set c.video i ch ∙ v.full;
      column = v.column;
      line = v.line;
      no_stray = v.no_stray;
    })

-- The offset of a cell.
pub offset_lem : (x y : ℕ) → x < 80 → y < 25 → u32 (160 * widen y + 2 * widen x) ≡ 160 * y + 2 * x
offset_lem x y hx hy = ground arith

put_char_at-OnScreen :
    (ch x y : ℕ) (c : Console) → x < 80 → y < 25 → OnScreen c → OnScreen (put_char_at ch x y c)
unfolding put_char_at
put_char_at-OnScreen ch x y c hx hy v = elim (Bool-cases (ch == b'\n')) [
  | inl newline ↦ rw newline (advance_line-OnScreen c v)
  | inr other ↦ elim (Bool-cases (ch == b'\t')) [
    | inl tab ↦ rw (other, tab) (advance_char_n-OnScreen 4 c (omega arith) v)
    | inr plain ↦
        rw (other, plain, offset_lem x y hx hy)
          (poke-OnScreen (160 * y + 2 * x) ch c (omega arith) v)
  ]
]

pub put_char-OnScreen : (ch : ℕ) (c : Console) → OnScreen c → OnScreen (put_char ch c)
unfolding put_char advance_char
put_char-OnScreen ch c v =
    let w = put_char_at-OnScreen ch c.cur_pos_x c.cur_pos_y c v.column v.line v in
    elim (Bool-cases (not (ch == b'\n') && not (ch == b'\t'))) [
      | inl shown ↦
          rw shown
            (advance_char_n-OnScreen 1 (put_char_at ch c.cur_pos_x c.cur_pos_y c) (omega arith) w)
      | inr control ↦ rw control w
    ]

pub print_str-OnScreen : (str : List ℕ) (c : Console) → OnScreen c → OnScreen (print_str str c)
unfolding print_str
print_str-OnScreen [] c v = v
print_str-OnScreen (ch ∷ str) c v =
    print_str-OnScreen str (put_char ch c) (put_char-OnScreen ch c v)

-- On the screen, `remove_char` stays there unless the cursor is in the first cell.
pub remove_char-OnScreen :
    (c : Console) → OnScreen c → 0 < c.cur_pos_x + c.cur_pos_y → OnScreen (remove_char c)
unfolding remove_char
remove_char-OnScreen c v somewhere =
    let column = v.column in
    let line = v.line in
    update_cursor_vga-OnScreen _ (elim (Bool-cases (is_negative (previous c.cur_pos_x))) [
      | inl first ↦
          let y : previous c.cur_pos_y < 25 = ground arith in
          rw first (
            put_char_at-OnScreen b' ' 79 (previous c.cur_pos_y) _ (omega arith) y
              (record { full = v.full; column = omega arith; line = y; no_stray = v.no_stray }))
      | inr inner ↦
          let x : previous c.cur_pos_x < 80 = ground arith in
          rw inner (
            put_char_at-OnScreen b' ' (previous c.cur_pos_x) c.cur_pos_y _ x line
              (record { full = v.full; column = x; line = line; no_stray = v.no_stray }))
    ])

-- In the first cell it writes a space two bytes in front of the video memory.
pub remove_char-misses :
    (c : Console)
    → c.cur_pos_x ≡ 0
    → c.cur_pos_y ≡ 0
    → ((remove_char c).stray ≡ (2 ^ 32 - 2) ∷ c.stray)
      × ((remove_char c).video ≡ c.video)
      × ((remove_char c).cur_pos_y ≡ 2 ^ 16 - 1)
unfolding remove_char put_char_at update_cursor_vga
remove_char-misses c x y = rw (x, y) (refl, refl, refl)
