-- ===== src/Keyboard/Tests.antt =====
-- Runs of the keyboard driver: A goes down, and the right arrow key is pressed and let go.
use abel_os.Base.{◌≡◌, refl, true, false, List, [], ◌∷◌, arith, inl, replicate, some}
use abel_os.Keys.{key_arrow_right}
use abel_os.Input.{key_press, key_release, zero_event, InputQueue}
use abel_os.Input.Ring.{contents, IsQueue}
use abel_os.Keyboard.{parse, extended_scancode_to_ascii_s1}
use abel_os.Keyboard.Stream.{
  Keystroke, encode_all, AreKeystrokes, put_all, receive, at_rest, receive-put_all,
}

abbrev strokes : List Keystroke
strokes =
    record { extended = false; code = 0x1e; kind = key_press }
    ∷ record { extended = true; code = 0x4d; kind = key_press }
    ∷ record { extended = true; code = 0x4d; kind = key_release }
    ∷ []

abbrev popped_queue : InputQueue
popped_queue = record { entries = replicate 16 zero_event; head = 3; tail = 4 }

popped_queue-IsQueue : IsQueue popped_queue
popped_queue-IsQueue = record { room = refl; head_in = inl (omega arith); tail_in = omega arith }

encode_run : encode_all strokes ≡ 0x1e ∷ 0xe0 ∷ 0x4d ∷ 0xe0 ∷ 0xcd ∷ []
encode_run = refl

parse_run :
    parse 1 0xcd ≡ record { extended = 0; rts = 1; out = some (key_arrow_right, key_release) }
unfolding parse extended_scancode_to_ascii_s1
parse_run = refl

strokes-AreKeystrokes : AreKeystrokes strokes
strokes-AreKeystrokes =
    ((omega arith, omega arith), ((omega arith, omega arith), ((omega arith, omega arith), tt)))

receive-put_all_example :
    (contents (receive (at_rest popped_queue) (encode_all strokes)).queue
      ≡ put_all (contents popped_queue) strokes)
    × ((receive (at_rest popped_queue) (encode_all strokes)).extended ≡ 0)
receive-put_all_example =
    receive-put_all strokes popped_queue popped_queue-IsQueue (omega arith, omega arith)
      strokes-AreKeystrokes
