-- ===== src/Printk/Tests.antt =====
-- Runs of the screen.
use abel_os.Base.{
  ℕ, ◌+◌, ◌-◌, ◌*◌, ◌/◌, ◌%◌, ◌≡◌, ◌≢◌, ◌^◌, refl, ◌&&◌, List, [], ◌∷◌, ◌++◌, none, some, arith,
  ◌⊎◌, ◌==◌, ltb, leb, if◌then◌else◌, length, replicate, length-replicate, get_or,
}
use abel_os.Printk.{
  n_to_single_hex, Console, scroll_screen, print_str, print_int, print_longx, print_hex,
  remove_char, Memory, printk, int_digits, hex_digits,
}
use abel_os.Printk.Scroll.{blank, get_or-scroll_screen}
use abel_os.Printk.Screen.{OnScreen, remove_char-misses}
use abel_os.Printk.Line.{print_str-cells}
use abel_os.Printk.Text.{text_from, printk-text_from, printk-past_end}
use abel_os.Printk.Numbers.{
  read_int, read_hex, print_int-reads, print_longx-reads, print_hex-print_longx,
}

unfoldable full_of_seven : List ℕ
full_of_seven = replicate 4000 7

full_lem : length full_of_seven ≡ 4000
unfolding full_of_seven
full_lem = length-replicate {A = ℕ} 4000 7

-- The cursor stands in the last line.
abbrev last_line : Console
last_line = record { video = full_of_seven; cur_pos_x = 2; cur_pos_y = 24; outs = []; stray = [] }

last_line-OnScreen : OnScreen last_line
last_line-OnScreen = record {
  full = full_lem;
  column = omega arith;
  line = omega arith;
  no_stray = refl;
}

abbrev top_left : Console
top_left = record last_line { cur_pos_x = 0; cur_pos_y = 0 }

-- The stack holds the word 7 everywhere, and "ok" at every address.
abbrev sevens : Memory
sevens = record { word = λ i. 7; string_at = λ p. b'o' ∷ (b'k' ∷ []) }

digits_of_1024 : int_digits 16 1024 [] ≡ b'1' ∷ (b'0' ∷ (b'2' ∷ (b'4' ∷ [])))
unfolding int_digits
digits_of_1024 = refl

digits_of_beef : hex_digits 16 0xbeef [] ≡ b'b' ∷ (b'e' ∷ (b'e' ∷ (b'f' ∷ [])))
unfolding hex_digits n_to_single_hex
digits_of_beef = refl

scroll_screen_example :
    get_or (scroll_screen 1 full_of_seven) 3999 0
    ≡ (if ltb (3999 + 160 * 1) 4000 then get_or full_of_seven (3999 + 160 * 1) 0 else blank 3999)
scroll_screen_example = get_or-scroll_screen 1 full_of_seven 3999 full_lem (omega arith)

printk-text_from_example :
    let fmt : List ℕ = b'=' ∷ (b'%' ∷ (b'd' ∷ (b'%' ∷ (b's' ∷ [])))) in
    ((text_from sevens fmt 0 ≡ none) × (printk sevens fmt last_line ≡ none))
    ⊎ ((t : List ℕ) × (text_from sevens fmt 0 ≡ some t)
        × (printk sevens fmt last_line ≡ some (print_str t last_line))
        × OnScreen (print_str t last_line))
printk-text_from_example =
    printk-text_from sevens (b'=' ∷ (b'%' ∷ (b'd' ∷ (b'%' ∷ (b's' ∷ []))))) last_line
      last_line-OnScreen

printk-past_end_example : printk sevens ((b'a' ∷ []) ++ (b'%' ∷ [])) last_line ≡ none
printk-past_end_example = printk-past_end sevens (b'a' ∷ []) last_line (refl, tt)

print_int-reads_example :
    ((2 ^ 32 - 5 ≡ 2 ^ 31) × (print_int (2 ^ 32 - 5) last_line ≡ none))
    ⊎ ((2 ^ 32 - 5 ≢ 2 ^ 31)
        × (t : List ℕ) × (print_int (2 ^ 32 - 5) last_line ≡ some (print_str t last_line))
        × (read_int t ≡ 2 ^ 32 - 5))
print_int-reads_example = print_int-reads (2 ^ 32 - 5) last_line (omega arith)

print_longx-reads_example :
    (t : List ℕ) × (print_longx (2 ^ 40) last_line ≡ print_str t last_line) × (read_hex t ≡ 2 ^ 40)
print_longx-reads_example = print_longx-reads (2 ^ 40) last_line (omega arith)

print_hex-print_longx_example : print_hex 0xbeef last_line ≡ print_longx 0xbeef last_line
print_hex-print_longx_example = print_hex-print_longx 0xbeef last_line (omega arith)

print_str-cells_example :
    let at = 160 * 24 + 2 * 2 in
    (get_or (print_str (b'h' ∷ (b'i' ∷ [])) last_line).video 3846 0 ≡ (
      if leb at 3846 && ltb 3846 (at + 2 * 2) && (3846 % 2 == 0)
      then get_or (b'h' ∷ (b'i' ∷ [])) ((3846 - at) / 2) 0
      else get_or full_of_seven 3846 0))
    × ((print_str (b'h' ∷ (b'i' ∷ [])) last_line).cur_pos_x ≡ 2 + 2)
    × ((print_str (b'h' ∷ (b'i' ∷ [])) last_line).cur_pos_y ≡ 24)
print_str-cells_example =
    print_str-cells (b'h' ∷ (b'i' ∷ [])) last_line 3846 last_line-OnScreen
      (refl, refl, (refl, refl, tt)) (omega arith)

remove_char-misses_example :
    ((remove_char top_left).stray ≡ (2 ^ 32 - 2) ∷ [])
    × ((remove_char top_left).video ≡ full_of_seven)
    × ((remove_char top_left).cur_pos_y ≡ 2 ^ 16 - 1)
remove_char-misses_example = remove_char-misses top_left refl refl
