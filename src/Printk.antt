-- ===== src/Printk.antt =====
-- The text screen of os/src/kernel/printk/printk.c and what is printed on it. `short` variables are
-- patterns of 16 bits. Strings are the bytes in front of their terminator.
pub mod Scroll
pub mod Screen
pub mod Digits
pub mod Line
pub mod Text
pub mod Numbers
mod Tests
use abel_os.Base.{
  ℕ, zero, suc, ◌+◌, ◌-◌, ◌*◌, ◌/◌, ◌%◌, ◌^◌, bit_and, Bool, true, false, not, ◌&&◌, ◌||◌, List, [],
  ◌∷◌, ◌++◌, Option, none, some, ltb, leb, ◌==◌, if◌then◌else◌, set, u8, u16, u32, u64, ◌>>>◌,
}
use abel_os.Mem.{memcpy}

-- `outs` are the port writes, the newest first; `stray` are the offsets from `video` of the writes
-- that miss its 4000 bytes.
pub record Console : Type 0 where
  pub video : List ℕ
  pub cur_pos_x : ℕ
  pub cur_pos_y : ℕ
  pub outs : List (ℕ × ℕ)
  pub stray : List ℕ

-- The screen at the address that `vmm_map_core` returns holds `video`.
pub printk_setup : List ℕ → Console → Console
printk_setup video c = record c { video = video; cur_pos_x = 0; cur_pos_y = 0 }

-- The loop of `clear_line` from `j` on.
pub clear_line_from : (left j y : ℕ) → List ℕ → List ℕ
clear_line_from zero j y video = video
clear_line_from (suc left) j y video =
    clear_line_from left (j + 1) y
      (set (set video (160 * y + 2 * j) b' ') (160 * y + j * 2 + 1) 0x07)

pub clear_line : ℕ → List ℕ → List ℕ
clear_line y video = clear_line_from 80 0 y video

-- `clear_line` on the lines from `i` on.
pub clear_lines : (left i : ℕ) → List ℕ → List ℕ
clear_lines zero i video = video
clear_lines (suc left) i video = clear_lines left (i + 1) (clear_line i video)

pub clear_screen : List ℕ → List ℕ
clear_screen video = clear_lines 25 0 video

-- The first loop of `scroll_screen` from `i` on.
pub move_lines : (left i times : ℕ) → List ℕ → List ℕ
move_lines zero i times video = video
move_lines (suc left) i times video =
    move_lines left (i + 1) times (memcpy (times * 160 + i * 160) (i * 160) 160 video)

pub scroll_screen : ℕ → List ℕ → List ℕ
scroll_screen times video =
    if leb 25 times
    then clear_screen video
    else clear_lines times (25 - times) (move_lines (25 - times) 0 times video)

pub update_cursor_vga : Console → Console
update_cursor_vga c =
    let pos = u16 (c.cur_pos_y * 80 + c.cur_pos_x) in
    record c {
      outs =
          (0x3d5, bit_and pos 0xff) ∷ (0x3d4, 0x0f) ∷ (0x3d5, pos >>> 8) ∷ (0x3d4, 0x0e) ∷ c.outs;
    }

abbrev pub is_negative : ℕ → Bool
is_negative s = leb (2 ^ 15) s

-- `n <= s` for a `short`.
abbrev pub at_least : ℕ → ℕ → Bool
at_least n s = not (is_negative s) && leb n s

abbrev pub previous : ℕ → ℕ
previous s = u16 (s + 2 ^ 16 - 1)

pub advance_line : Console → Console
advance_line c =
    let c' =
      if at_least 24 c.cur_pos_y
      then record c { video = scroll_screen 1 c.video; cur_pos_y = previous c.cur_pos_y }
      else c in
    update_cursor_vga (record c' { cur_pos_y = u16 (c'.cur_pos_y + 1); cur_pos_x = 0 })

-- The branch of `advance_char_n` behind the end of a line.
abbrev pub wrap_line : (x y : ℕ) → Console → Console
wrap_line x y c =
    if at_least 25 y
    then record c { video = scroll_screen (y - 24) c.video; cur_pos_y = 24; cur_pos_x = x % 80 }
    else record c { cur_pos_y = y; cur_pos_x = x % 80 }

pub advance_char_n : ℕ → Console → Console
advance_char_n n c =
    let x = u16 (c.cur_pos_x + n) in
    update_cursor_vga (
      if at_least 80 x
      then wrap_line x (u16 (c.cur_pos_y + x / 80)) c
      else record c { cur_pos_x = x })

pub advance_char : Console → Console
advance_char c = advance_char_n 1 c

-- A `short` as an `int`.
abbrev pub widen : ℕ → ℕ
widen s = if is_negative s then s + 2 ^ 32 - 2 ^ 16 else s

-- `video[i] = v`
abbrev pub poke : ℕ → ℕ → Console → Console
poke i v c =
    if ltb i 4000 then record c { video = set c.video i v } else record c { stray = i ∷ c.stray }

pub put_char_at : ℕ → ℕ → ℕ → Console → Console
put_char_at ch x y c =
    if ch == b'\n'
    then advance_line c
    else if ch == b'\t'
    then advance_char_n 4 c
    else poke (u32 (160 * widen y + 2 * widen x)) ch c

pub put_char : ℕ → Console → Console
put_char ch c =
    let c' = put_char_at ch c.cur_pos_x c.cur_pos_y c in
    if not (ch == b'\n') && not (ch == b'\t') then advance_char c' else c'

pub remove_char : Console → Console
remove_char c =
    let x = previous c.cur_pos_x in
    let c' =
      if is_negative x
      then record c { cur_pos_x = 79; cur_pos_y = previous c.cur_pos_y }
      else record c { cur_pos_x = x } in
    update_cursor_vga (put_char_at b' ' c'.cur_pos_x c'.cur_pos_y c')

pub print_str : List ℕ → Console → Console
print_str [] c = c
print_str (ch ∷ str) c = print_str str (put_char ch c)

-- The loops that fill a buffer from its end, with `left` places to go: what the buffer holds in the
-- end, behind the index.
pub int_digits : (left n : ℕ) → List ℕ → List ℕ
int_digits zero n acc = acc
int_digits (suc left) n acc =
    let rest = int_digits left (n / 10) ((n % 10 + b'0') ∷ acc) in if n == 0 then acc else rest

pub n_to_single_hex : ℕ → ℕ
n_to_single_hex n = if ltb n 10 then n + b'0' else if ltb n 16 then (n - 10) + b'a' else b'f'

pub hex_digits : (left n : ℕ) → List ℕ → List ℕ
hex_digits zero n acc = acc
hex_digits (suc left) n acc =
    let rest = hex_digits left (n / 16) (n_to_single_hex (bit_and (n % 16) 0x0f) ∷ acc) in
    if n == 0 then acc else rest

pub longx_digits : (left n : ℕ) → List ℕ → List ℕ
longx_digits zero n acc = acc
longx_digits (suc left) n acc =
    let rest = longx_digits left (n >>> 4) (n_to_single_hex (bit_and n 0x0f) ∷ acc) in
    if n == 0 then acc else rest

-- The last branch of `print_int`.
abbrev pub print_positive : ℕ → Console → Console
print_positive n c = print_str (int_digits 16 n []) c

-- `none` for the least `int`, whose negation overflows and which no call gets past.
pub print_int : ℕ → Console → Option Console
print_int n c =
    if n == 2 ^ 31
    then none
    else if leb (2 ^ 31) n
    then some (print_positive (2 ^ 32 - n) (put_char b'-' c))
    else if n == 0
    then some (put_char b'0' c)
    else some (print_positive n c)

pub print_hex : ℕ → Console → Console
print_hex n c =
    let c' = print_str (b'0' ∷ b'x' ∷ []) c in
    if n == 0 then put_char b'0' c' else print_str (hex_digits 16 n []) c'

pub print_longx : ℕ → Console → Console
print_longx n c =
    let c' = print_str (b'0' ∷ b'x' ∷ []) c in
    if n == 0 then put_char b'0' c' else print_str (longx_digits 20 n []) c'

-- The arguments are the words of the stack behind the format, and a pointer to a string leads to its
-- bytes.
pub record Memory : Type 0 where
  pub word : ℕ → ℕ
  pub string_at : ℕ → List ℕ

-- The switch of `printk` on the byte behind '%', with the index of the next argument.
pub convert : Memory → ℕ → ℕ → Console → Option (Console × ℕ)
convert m ch i c =
    if ch == b'd'
    then elim (print_int (m.word i) c) [ none ↦ none | some c' ↦ some (c', i + 1) ]
    else if ch == b's'
    then some (print_str (m.string_at (m.word i)) c, i + 1)
    else if ch == b'c'
    then some (put_char (u8 (m.word i)) c, i + 1)
    else if ch == b'x'
    then some (print_hex (m.word i) c, i + 1)
    else if ch == b'l'
    then some (print_longx (m.word i + 2 ^ 32 * m.word (i + 1)) c, i + 2)
    else if ch == b'%'
    then some (put_char b'%' c, i)
    else some (c, i)

-- The loop of `printk`. `none` also for a format that ends with a '%': the loop goes on behind its
-- terminator.
pub printk_from : Memory → List ℕ → ℕ → Console → Option Console
printk_from m [] i c = some c
printk_from m (ch ∷ []) i c = if ch == b'%' then none else some (put_char ch c)
printk_from m (ch ∷ (next ∷ fmt)) i c = elim (ch == b'%') [
  | true ↦ elim (convert m next i c) [ none ↦ none | some (c', i') ↦ printk_from m fmt i' c' ]
  | false ↦ printk_from m (next ∷ fmt) i (put_char ch c)
]

pub printk : Memory → List ℕ → Console → Option Console
printk m fmt c = printk_from m fmt 0 c
