-- ===== src/Input/Fresh.antt =====
-- The input queue from `input_queue_init`, which sets `head` to 255, to its first pop.
use abel_os.Base.{◌<◌, ◌≡◌, refl, false, [], ◌∷◌, ◌++◌, arith, length, inr}
use abel_os.Input.{InputEvent, InputQueue, is_full, enqueue_event, queue_init}
use abel_os.Input.Ring.{window, pending, contents, IsQueue, contents-stored, stored-IsQueue}

-- `input_queue_init` gives an empty queue, whatever stood in its entries.
pub queue_init-empty :
    (q : InputQueue)
    → length q.entries ≡ 16
    → (contents (queue_init q) ≡ []) × IsQueue (queue_init q)
unfolding queue_init window
queue_init-empty q room = (refl, record { room = room; head_in = inr refl; tail_in = omega arith })

fresh_not_full : (q : InputQueue) → q.head ≡ 255 → is_full q ≡ false
unfolding is_full
fresh_not_full q h = ground arith

-- Before the first pop a queue takes up to 15 events, and reports none of them as dropped.
pub enqueue_event-fresh :
    (q : InputQueue) (e : InputEvent)
    → IsQueue q
    → q.head ≡ 255
    → pending q < 15
    → let (q', full) = enqueue_event q e in
      (contents q' ≡ contents q ++ (e ∷ [])) × (full ≡ false) × (q'.head ≡ 255) × IsQueue q'
unfolding enqueue_event
enqueue_event-fresh q e v h few =
    rw (fresh_not_full q h) (contents-stored q e v few, refl, h, stored-IsQueue q e v few)

-- The sixteenth event before the first pop empties the queue: the code sees it as taken, not as
-- full, and all sixteen events are lost.
pub enqueue_event-loses_all :
    (q : InputQueue) (e : InputEvent)
    → IsQueue q
    → q.head ≡ 255
    → pending q ≡ 15
    → let (q', full) = enqueue_event q e in (contents q' ≡ []) × (full ≡ false)
unfolding enqueue_event window
enqueue_event-loses_all q e v h full =
    let last : q.tail ≡ 15 = omega (arith, v.tail_in) in
    rw (fresh_not_full q h, last, h) (refl, refl)
