-- ===== src/Keyboard/Stream.antt =====
-- Streams of scancodes through ps2_keyboard_parse and ps2_keyboard_irq_handler of
-- os/src/drivers/keyboard.c, as keystrokes that scancode set 1 encodes.
use abel_os.Base.{
  ℕ, ◌+◌, ◌-◌, ◌<◌, ◌≡◌, ◌≢◌, refl, ap, Bool, true, false, List, [], ◌∷◌, ◌++◌, some, arith, leb,
  ◌==◌, if◌then◌else◌, get_or,
}
use abel_os.Keys.{Key, key_unknown}
use abel_os.Input.{
  KeyInput, key_press, key_release, InputEvent, ev_key, InputQueue, enqueue_event, event_publish,
  event_key_publish,
}
use abel_os.Input.Ring.{contents, IsQueue, IsStarted, put_bounded, enqueue_event-refines}
use abel_os.Keyboard.{
  scancode_to_key_value_s1, extended_scancode_to_ascii_s1, extended_start, read_table, parse,
  Keyboard, publish, irq_handler,
}

-- A key of one of the two tables going down or up.
pub record Keystroke : Type 0 where
  pub extended : Bool
  pub code : ℕ
  pub kind : KeyInput

abbrev last_byte : Keystroke → ℕ
last_byte s = elim s.kind [ key_press ↦ s.code | key_release ↦ s.code + 0x80 ]

-- The bytes that stand for it in scancode set 1.
abbrev pub encode : Keystroke → List ℕ
encode s = if s.extended then extended_start ∷ last_byte s ∷ [] else last_byte s ∷ []

-- Its code is below 0x80, and its last byte is not taken for a prefix.
abbrev pub IsKeystroke : Keystroke → Type 0
IsKeystroke s = (s.code < 0x80) × (last_byte s ≢ 0xe0)

abbrev pub event_of : Keystroke → InputEvent
event_of s = record {
  evid = ev_key;
  value =
      get_or (if s.extended then extended_scancode_to_ascii_s1 else scancode_to_key_value_s1) s.code
        key_unknown;
  kind = s.kind;
}

-- The interrupts for a list of bytes, one after the other.
pub receive : Keyboard → List ℕ → Keyboard
unfolding irq_handler
receive k [] = k
receive k (b ∷ bs) = receive (irq_handler k b).0 bs

abbrev pub at_rest : InputQueue → Keyboard
at_rest q = record { extended = 0; queue = q }

receive-append : (k : Keyboard) (xs ys : List ℕ) → receive k (xs ++ ys) ≡ receive (receive k xs) ys
unfolding receive
receive-append k [] ys = refl
receive-append k (x ∷ xs) ys = receive-append (irq_handler k x).0 xs ys

abbrev stroke : Bool → ℕ → KeyInput → Keystroke
stroke e c k = record { extended = e; code = c; kind = k }

abbrev OneCall : InputQueue → Keystroke → Type 0
OneCall q s = receive (at_rest q) (encode s) ≡ at_rest (enqueue_event q (event_of s)).0

parse_plain :
    (c : ℕ)
    → c ≢ 0xe0
    → parse 0 c
      ≡ record { extended = 0; rts = 1; out = some (read_table scancode_to_key_value_s1 c) }
unfolding parse
parse_plain c h = let other : (c == 0xe0) ≡ false = ground arith in rw other

parse_extended :
    (c : ℕ)
    → c ≢ 0xe0
    → parse 1 c
      ≡ record { extended = 0; rts = 1; out = some (read_table extended_scancode_to_ascii_s1 c) }
unfolding parse
parse_extended c h = let other : (c == 0xe0) ≡ false = ground arith in rw other

-- What a byte reads from a table, by its top bit.
read_make : (t : List Key) (c : ℕ) → c < 0x80 → read_table t c ≡ (get_or t c key_unknown, key_press)
read_make t c h = let low : leb 0x80 c ≡ false = ground arith in rw low

read_break :
    (t : List Key) (c : ℕ)
    → c < 0x80
    → read_table t (c + 0x80) ≡ (get_or t c key_unknown, key_release)
read_break t c h =
    let high : leb 0x80 (c + 0x80) ≡ true = ground arith in
    let back : c + 0x80 - 0x80 ≡ c = omega arith in rw (high, back)

prefix_kept :
    (q : InputQueue)
    → irq_handler (at_rest q) extended_start ≡ (record { extended = 1; queue = q }, false)
unfolding irq_handler parse
prefix_kept q = refl

one_call :
    (q : InputQueue) (e : Bool) (c : ℕ) (k : KeyInput)
    → IsKeystroke (stroke e c k)
    → OneCall q (stroke e c k)
unfolding receive event_key_publish event_publish publish
one_call q true c key_press (low, last) = rw (
  prefix_kept q,
  parse_extended c last,
  receive,
  irq_handler,
  read_make extended_scancode_to_ascii_s1 c low,
)
one_call q true c key_release (low, last) = rw (
  prefix_kept q,
  parse_extended (c + 0x80) last,
  receive,
  irq_handler,
  read_break extended_scancode_to_ascii_s1 c low,
)
one_call q false c key_press (low, last) =
    rw (parse_plain c last, receive, irq_handler, read_make scancode_to_key_value_s1 c low)
one_call q false c key_release (low, last) =
    rw
      (parse_plain (c + 0x80) last, receive, irq_handler, read_break scancode_to_key_value_s1 c low)

-- One keystroke is one call of `input_event_publish`, and leaves no prefix behind.
receive-encode :
    (q : InputQueue) (s : Keystroke)
    → IsKeystroke s
    → receive (at_rest q) (encode s) ≡ at_rest (enqueue_event q (event_of s)).0
receive-encode q s h = one_call q s.extended s.code s.kind h

abbrev pub AreKeystrokes : List Keystroke → Type 0
AreKeystrokes [] = Unit {0}
AreKeystrokes (s ∷ ss) = IsKeystroke s × AreKeystrokes ss

abbrev pub encode_all : List Keystroke → List ℕ
encode_all [] = []
encode_all (s ∷ ss) = encode s ++ encode_all ss

-- The events of the keystrokes put into the bounded queue one by one.
abbrev pub put_all : List InputEvent → List Keystroke → List InputEvent
put_all es [] = es
put_all es (s ∷ ss) = put_all (put_bounded es (event_of s)).0 ss

-- The bytes of any sequence of keystrokes leave in a started queue what putting their events into
-- the bounded queue leaves, in order and with nothing else, and the driver waiting for no second
-- byte.
pub receive-put_all :
    (ss : List Keystroke) (q : InputQueue)
    → IsQueue q
    → IsStarted q
    → AreKeystrokes ss
    → let k = receive (at_rest q) (encode_all ss) in
      (contents k.queue ≡ put_all (contents q) ss) × (k.extended ≡ 0)
receive-put_all [] q v st ok = unfold receive in (refl, refl)
receive-put_all (s ∷ ss) q v st (ok, rest) =
    let (put, v', st') = enqueue_event-refines q (event_of s) v st in
    let q' = (enqueue_event q (event_of s)).0 in
    let ih = receive-put_all ss q' v' st' rest in
    rw
      (
        receive-append (at_rest q) (encode s) (encode_all ss),
        receive-encode q s ok,
        ← ap (λ (p : List InputEvent × Bool). p.0) put,
      )
      ih
