-- ===== src/Printk/Text.antt =====
-- The text that a call of `printk` prints, apart from the screen.
use abel_os.Base.{
  ℕ, ◌+◌, ◌-◌, ◌*◌, ◌^◌, ◌≡◌, refl, sym, ◌∙◌, ap, Bool, true, false, List, [], ◌∷◌, ◌++◌, Option,
  none, some, leb, ◌==◌, if◌then◌else◌, inl, inr, ◌⊎◌, Bool-cases, u8,
}
use abel_os.Printk.{
  Console, put_char, print_str, int_digits, hex_digits, longx_digits, print_int, print_hex,
  print_longx, Memory, convert, printk_from, printk,
}
use abel_os.Printk.Screen.{OnScreen, print_str-OnScreen}

unfoldable pub int_text : ℕ → Option (List ℕ)
int_text n =
    if n == 2 ^ 31
    then none
    else if leb (2 ^ 31) n
    then some (b'-' ∷ int_digits 16 (2 ^ 32 - n) [])
    else if n == 0
    then some (b'0' ∷ [])
    else some (int_digits 16 n [])

unfoldable pub hex_text : ℕ → List ℕ
hex_text n = b'0' ∷ (b'x' ∷ (if n == 0 then b'0' ∷ [] else hex_digits 16 n []))

unfoldable pub longx_text : ℕ → List ℕ
longx_text n = b'0' ∷ (b'x' ∷ (if n == 0 then b'0' ∷ [] else longx_digits 20 n []))

-- What stands for one conversion, and the index of the argument behind it.
pub conversion_text : Memory → ℕ → ℕ → Option (List ℕ × ℕ)
conversion_text m ch i =
    if ch == b'd'
    then elim (int_text (m.word i)) [ none ↦ none | some t ↦ some (t, i + 1) ]
    else if ch == b's'
    then some (m.string_at (m.word i), i + 1)
    else if ch == b'c'
    then some (u8 (m.word i) ∷ [], i + 1)
    else if ch == b'x'
    then some (hex_text (m.word i), i + 1)
    else if ch == b'l'
    then some (longx_text (m.word i + 2 ^ 32 * m.word (i + 1)), i + 2)
    else if ch == b'%'
    then some (b'%' ∷ [], i)
    else some ([], i)

-- `t` in front of a text.
abbrev pub in_front : List ℕ → Option (List ℕ) → Option (List ℕ)
in_front t none = none
in_front t (some rest) = some (t ++ rest)

-- The text of a format from the argument `i` on.
pub text_from : Memory → List ℕ → ℕ → Option (List ℕ)
text_from m [] i = some []
text_from m (ch ∷ []) i = if ch == b'%' then none else some (ch ∷ [])
text_from m (ch ∷ (next ∷ fmt)) i = elim (ch == b'%') [
  | true ↦ elim (conversion_text m next i) [
    | none ↦ none
    | some (t, i') ↦ in_front t (text_from m fmt i')
  ]
  | false ↦ in_front (ch ∷ []) (text_from m (next ∷ fmt) i)
]

-- A text put on the screen byte by byte.
abbrev pub put_text : Console → Option (List ℕ) → Option Console
put_text c none = none
put_text c (some t) = some (print_str t c)

abbrev pub IsPlain : List ℕ → Type 0
IsPlain [] = Unit {0}
IsPlain (ch ∷ t) = ((ch == b'%') ≡ false) × IsPlain t

print_str-append : (s t : List ℕ) (c : Console) → print_str (s ++ t) c ≡ print_str t (print_str s c)
unfolding print_str
print_str-append [] t c = refl
print_str-append (ch ∷ s) t c = print_str-append s t (put_char ch c)

put_text-in_front :
    (c : Console) (t : List ℕ) (r : Option (List ℕ))
    → put_text c (in_front t r) ≡ put_text (print_str t c) r
put_text-in_front c t none = refl
put_text-in_front c t (some rest) = ap some (print_str-append t rest c)

-- Two conditionals on the same test, one under a function.
agree :
    {A B : Type 0} (b : Bool) (f : A → B) {p q : B} {s t : A}
    → p ≡ f s
    → q ≡ f t
    → (if b then p else q) ≡ f (if b then s else t)
agree true f h k = h
agree false f h k = k

pub print_int-int_text : (n : ℕ) (c : Console) → print_int n c ≡ put_text c (int_text n)
unfolding print_int int_text print_str
print_int-int_text n c =
    agree (n == 2 ^ 31) (put_text c) refl
      (agree (leb (2 ^ 31) n) (put_text c) refl (agree (n == 0) (put_text c) refl refl))

abbrev pub put_conversion : Console → Option (List ℕ × ℕ) → Option (Console × ℕ)
put_conversion c none = none
put_conversion c (some (t, i)) = some (print_str t c, i)

print_hex-hex_text : (n : ℕ) (c : Console) → print_hex n c ≡ print_str (hex_text n) c
unfolding print_hex hex_text print_str
print_hex-hex_text n c =
    agree (n == 0) (λ (t : List ℕ). print_str t (put_char b'x' (put_char b'0' c))) refl refl

pub print_longx-longx_text : (n : ℕ) (c : Console) → print_longx n c ≡ print_str (longx_text n) c
unfolding print_longx longx_text print_str
print_longx-longx_text n c =
    agree (n == 0) (λ (t : List ℕ). print_str t (put_char b'x' (put_char b'0' c))) refl refl

decimal :
    (i : ℕ) (c : Console) (p : Option Console) (r : Option (List ℕ))
    → p ≡ put_text c r
    → ◌≡◌ {A = Option (Console × ℕ)}
        (elim p [ none ↦ none | some c' ↦ some (c', i) ])
        (put_conversion c (elim r [ none ↦ none | some t ↦ some (t, i) ]))
decimal i c p none h = rw h refl
decimal i c p (some t) h = rw h refl

convert-conversion_text :
    (m : Memory) (ch i : ℕ) (c : Console)
    → convert m ch i c ≡ put_conversion c (conversion_text m ch i)
unfolding convert conversion_text print_str
convert-conversion_text m ch i c =
    let long = m.word i + 2 ^ 32 * m.word (i + 1) in
    agree (ch == b'd') f (decimal (i + 1) c _ _ (print_int-int_text (m.word i) c)) (
      agree (ch == b's') f refl (
        agree (ch == b'c') f refl (
          agree (ch == b'x') f (ap (λ d. some (d, i + 1)) (print_hex-hex_text (m.word i) c)) (
            agree (ch == b'l') f (ap (λ d. some (d, i + 2)) (print_longx-longx_text long c))
              (agree (ch == b'%') f refl refl)))))
  where
    f : Option (List ℕ × ℕ) → Option (Console × ℕ)
    f = put_conversion c

printk_from-text_from :
    (m : Memory) (fmt : List ℕ) (i : ℕ) (c : Console)
    → printk_from m fmt i c ≡ put_text c (text_from m fmt i)
unfolding printk_from text_from print_str
printk_from-text_from m [] i c = refl
printk_from-text_from m (ch ∷ []) i c = agree (ch == b'%') (put_text c) refl refl
printk_from-text_from m (ch ∷ (next ∷ fmt)) i c = elim (Bool-cases (ch == b'%')) [
  | inr plain ↦
      rw (plain, printk_from, text_from)
        (printk_from-text_from m (next ∷ fmt) i (put_char ch c)
          ∙ sym (put_text-in_front c (ch ∷ []) (text_from m (next ∷ fmt) i)))
  | inl sign ↦
      rw (sign, printk_from, text_from)
        (behind (conversion_text m next i) (convert m next i c) (convert-conversion_text m next i c)
          (λ i' c'. printk_from-text_from m fmt i' c'))
]
  where
    behind :
        (r : Option (List ℕ × ℕ)) (p : Option (Console × ℕ))
        → p ≡ put_conversion c r
        → ((i' : ℕ) (c' : Console) → printk_from m fmt i' c' ≡ put_text c' (text_from m fmt i'))
        → ◌≡◌ {A = Option Console}
            (elim p [ none ↦ none | some (c', i') ↦ printk_from m fmt i' c' ])
            (put_text c (elim r [ none ↦ none | some (t, i') ↦ in_front t (text_from m fmt i') ]))
    behind none p h ih = rw h refl
    behind (some (t, i')) p h ih =
        rw h (ih i' (print_str t c) ∙ sym (put_text-in_front c t (text_from m fmt i')))

-- `printk` either prints the text of its format on the screen, byte by byte, and the screen's invariant
-- is kept, or the format has no text.
pub printk-text_from :
    (m : Memory) (fmt : List ℕ) (c : Console)
    → OnScreen c
    → ((text_from m fmt 0 ≡ none) × (printk m fmt c ≡ none))
      ⊎ ((t : List ℕ) × (text_from m fmt 0 ≡ some t)
          × (printk m fmt c ≡ some (print_str t c))
          × OnScreen (print_str t c))
unfolding printk
printk-text_from m fmt c v = by_text (text_from m fmt 0) refl
  where
    by_text :
        (r : Option (List ℕ))
        → text_from m fmt 0 ≡ r
        → ((text_from m fmt 0 ≡ none) × (printk_from m fmt 0 c ≡ none))
          ⊎ ((t : List ℕ) × (text_from m fmt 0 ≡ some t)
              × (printk_from m fmt 0 c ≡ some (print_str t c))
              × OnScreen (print_str t c))
    by_text none h = inl (h, printk_from-text_from m fmt 0 c ∙ ap (put_text c) h)
    by_text (some t) h =
        inr (t, h, printk_from-text_from m fmt 0 c ∙ ap (put_text c) h, print_str-OnScreen t c v)

-- Behind a text without '%', a '%' at the end of the format makes `printk` read on past its end.
pub printk-past_end :
    (m : Memory) (t : List ℕ) (c : Console) → IsPlain t → printk m (t ++ (b'%' ∷ [])) c ≡ none
unfolding printk printk_from
printk-past_end m t c h = ends t 0 c h
  where
    ends :
        (t : List ℕ) (i : ℕ) (c : Console) → IsPlain t → printk_from m (t ++ (b'%' ∷ [])) i c ≡ none
    ends [] i c h = refl
    ends (ch ∷ []) i c h = rw (h.0, printk_from) refl
    ends (ch ∷ (next ∷ t)) i c h = rw (h.0, printk_from) (ends (next ∷ t) i (put_char ch c) h.1)
