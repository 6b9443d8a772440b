-- ===== src/Input.antt =====
-- The input event queue of os/src/kernel/input/input.c: a ring of 16 events whose `head` is the
-- index before the oldest event.
pub mod Ring
pub mod Fresh
mod Tests
use abel_os.Base.{
  ℕ, ◌+◌, ◌%◌, Bool, true, false, List, [], ◌∷◌, Option, none, some, ◌==◌, if◌then◌else◌, get_or,
  set, u8,
}
use abel_os.Keys.{Key, key_unknown}

-- `enum keyboard_input_type`
pub data KeyInput : Type 0 where
  key_press key_release : KeyInput

-- `enum input_evid`
pub data Evid : Type 0 where
  ev_key : Evid

-- `struct input_event`, with the fields of its `struct keyboard_input_event`.
pub record InputEvent : Type 0 where
  pub evid : Evid
  pub value : Key
  pub kind : KeyInput

abbrev pub max_events_in_queue : ℕ
max_events_in_queue = 16

-- The entries of a static array are zero.
abbrev pub zero_event : InputEvent
zero_event = record { evid = ev_key; value = key_unknown; kind = key_press }

pub record InputQueue : Type 0 where
  pub entries : List InputEvent
  pub head : ℕ
  pub tail : ℕ

-- `head` is a `uint8_t`, so the -1 is 255.
pub queue_init : InputQueue → InputQueue
queue_init q = record q { head = 255; tail = 0 }

pub is_full : InputQueue → Bool
is_full q = q.head == (q.tail + 1) % max_events_in_queue

pub is_empty : InputQueue → Bool
is_empty q = (q.head + 1) % max_events_in_queue == q.tail

-- The second part says that the queue was full and the event dropped, which the code prints.
pub enqueue_event : InputQueue → InputEvent → InputQueue × Bool
enqueue_event q e = if is_full q then (q, true) else (
  record q { entries = set q.entries q.tail e; tail = u8 (q.tail + 1) % max_events_in_queue },
  false,
)

-- What is stored through `ev_out`, `none` where the result is 0.
pub event_pop : InputQueue → InputQueue × Option InputEvent
event_pop q = if is_empty q then (q, none) else (
  record q { head = u8 (q.head + 1) % max_events_in_queue },
  some (get_or q.entries ((q.head + 1) % max_events_in_queue) zero_event),
)

unfoldable pub event_publish : InputQueue → InputEvent → InputQueue × Bool
event_publish q e = enqueue_event q e

unfoldable pub event_key_publish : InputQueue → Key → KeyInput → InputQueue × Bool
event_key_publish q value kind =
    event_publish q (record { evid = ev_key; value = value; kind = kind })

-- Less the two lines that it prints.
pub subsystem_init : InputQueue → InputQueue
subsystem_init q = queue_init q
