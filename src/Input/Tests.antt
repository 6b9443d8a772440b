-- ===== src/Input/Tests.antt =====
-- Runs of the event queue.
use abel_os.Base.{ℕ, ◌<◌, ◌≡◌, refl, false, [], ◌∷◌, ◌++◌, some, arith, inl, inr, replicate}
use abel_os.Keys.{key_a, key_b}
use abel_os.Input.{
  InputEvent, ev_key, key_press, key_release, zero_event, InputQueue, is_empty, enqueue_event,
  event_pop,
}
use abel_os.Input.Ring.{
  window, contents, IsQueue, IsStarted, put_bounded, take_first, enqueue_event-refines,
  event_pop-refines,
}
use abel_os.Input.Fresh.{enqueue_event-loses_all}

abbrev a_down : InputEvent
a_down = record { evid = ev_key; value = key_a; kind = key_press }

abbrev b_up : InputEvent
b_up = record { evid = ev_key; value = key_b; kind = key_release }

-- A popped queue whose two events go round the end of the ring.
abbrev two_events : InputQueue
two_events = record {
  entries = b_up ∷ replicate 14 zero_event ++ (a_down ∷ []);
  head = 14;
  tail = 1;
}

abbrev fresh_queue : ℕ → InputQueue
fresh_queue n = record { entries = replicate 16 a_down; head = 255; tail = n }

two_events-IsQueue : IsQueue two_events
two_events-IsQueue = record { room = refl; head_in = inl (omega arith); tail_in = omega arith }

fresh_queue-IsQueue : (n : ℕ) → n < 16 → IsQueue (fresh_queue n)
fresh_queue-IsQueue n h = record { room = refl; head_in = inr refl; tail_in = h }

contents_run : contents two_events ≡ a_down ∷ b_up ∷ []
unfolding window
contents_run = refl

event_pop_run : (event_pop two_events).1 ≡ some a_down
unfolding event_pop is_empty
event_pop_run = refl

enqueue_event-refines_example :
    ((contents (enqueue_event two_events a_down).0, (enqueue_event two_events a_down).1)
      ≡ put_bounded (contents two_events) a_down)
    × IsQueue (enqueue_event two_events a_down).0
    × IsStarted (enqueue_event two_events a_down).0
enqueue_event-refines_example =
    enqueue_event-refines two_events a_down two_events-IsQueue (omega arith, omega arith)

event_pop-refines_example :
    ((contents (event_pop two_events).0, (event_pop two_events).1)
      ≡ take_first (contents two_events))
    × IsQueue (event_pop two_events).0
event_pop-refines_example = event_pop-refines two_events two_events-IsQueue

enqueue_event-loses_all_example :
    (contents (enqueue_event (fresh_queue 15) b_up).0 ≡ [])
    × ((enqueue_event (fresh_queue 15) b_up).1 ≡ false)
enqueue_event-loses_all_example =
    enqueue_event-loses_all (fresh_queue 15) b_up (fresh_queue-IsQueue 15 (omega arith)) refl
      (omega arith)
