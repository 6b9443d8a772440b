-- ===== src/Input/Ring.antt =====
-- The ring as a first-in first-out queue of events.
use abel_os.Base.{
  ℕ, zero, suc, ◌+◌, ◌-◌, ◌%◌, ◌≤◌, ◌<◌, ◌≡◌, ◌≢◌, refl, ap, ◌∙◌, Bool, true, false, List, [], ◌∷◌,
  ◌++◌, Option, none, some, arith, ◌==◌, if◌then◌else◌, get_or, set, length, length-set, get_or-set,
  ◌⊎◌, inl, inr, u8, Bool-cases,
}
use abel_os.Input.{InputEvent, zero_event, InputQueue, is_full, is_empty, enqueue_event, event_pop}

-- The `n` events from index `i` on, going round at 16.
unfoldable pub window : List InputEvent → ℕ → ℕ → List InputEvent
window entries i zero = []
window entries i (suc n) = get_or entries (i % 16) zero_event ∷ window entries (i + 1) n

-- How many events lie between `head` and `tail`.
abbrev pub pending : InputQueue → ℕ
pending q = (q.tail + 31 - q.head % 16) % 16

-- The events of the queue, oldest first.
abbrev pub contents : InputQueue → List InputEvent
contents q = window q.entries (q.head + 1) (pending q)

-- A queue between calls: 16 entries, and indices in range; `head` is 255 until the first pop.
pub record IsQueue (q : InputQueue) : Type 0 where
  pub room : length q.entries ≡ 16
  pub head_in : (q.head < 16) ⊎ (q.head ≡ 255)
  pub tail_in : q.tail < 16

-- After the first pop the queue keeps one entry free.
abbrev pub IsStarted : InputQueue → Type 0
IsStarted q = (q.head < 16) × (pending q ≤ 14)

length-window : (entries : List InputEvent) (i n : ℕ) → length (window entries i n) ≡ n
unfolding window
length-window entries i zero = refl
length-window entries i (suc n) = ap suc (length-window entries (i + 1) n)

window-round :
    (entries : List InputEvent) (i j n : ℕ)
    → i % 16 ≡ j % 16
    → window entries i n ≡ window entries j n
unfolding window
window-round entries i j zero e = refl
window-round entries i j (suc n) e = rw (e, window-round entries (i + 1) (j + 1) n (omega arith))

-- A write outside the window is not seen.
window-set_out :
    (entries : List InputEvent) (i j n : ℕ) (e : InputEvent)
    → ((k : ℕ) → k < n → (i + k) % 16 ≢ j)
    → window (set entries j e) i n ≡ window entries i n
unfolding window
window-set_out entries i j zero e out = refl
window-set_out entries i j (suc n) e out =
    let here : i % 16 ≢ j = λ h. out 0 (omega arith) (omega arith) in
    let first : get_or (set entries j e) (i % 16) zero_event ≡ get_or entries (i % 16) zero_event =
      ground (arith, get_or-set entries j (i % 16) e zero_event) in
    rw
      (first, window-set_out entries (i + 1) j n e λ k h p. out (suc k) (omega arith) (omega arith))

-- One more event at the far end.
window-suc :
    (entries : List InputEvent) (i n : ℕ)
    → window entries i (suc n)
      ≡ window entries i n ++ (get_or entries ((i + n) % 16) zero_event ∷ [])
unfolding window
window-suc entries i zero = let e : (i + 0) % 16 ≡ i % 16 = omega arith in rw e
window-suc entries i (suc n) =
    let e : (i + 1 + n) % 16 ≡ (i + suc n) % 16 = omega arith in
    rw (window-suc entries (i + 1) n, e)

-- What an unfull queue does with an event, at every position of the indices.
module _ (q : InputQueue) (e : InputEvent) (v : IsQueue q) (few : pending q < 15) where
  abbrev stored : InputQueue
  stored = record q { entries = set q.entries q.tail e; tail = u8 (q.tail + 1) % 16 }

  one_more : pending stored ≡ suc (pending q)
  one_more = omega (arith, v.tail_in)

  end_at : (q.head + 1 + pending q) % 16 ≡ q.tail
  end_at = omega (arith, v.tail_in)

  not_seen : (k : ℕ) → k < pending q → (q.head + 1 + k) % 16 ≢ q.tail
  not_seen k h = omega (arith, v.tail_in)

  entry : get_or (set q.entries q.tail e) q.tail zero_event ≡ e
  entry = ground (arith, get_or-set q.entries q.tail q.tail e zero_event, v.room, v.tail_in)

  pub contents-stored : contents stored ≡ contents q ++ (e ∷ [])
  contents-stored = rw (
    one_more,
    window-suc (set q.entries q.tail e) (q.head + 1) (pending q),
    window-set_out q.entries (q.head + 1) q.tail (pending q) e not_seen,
    end_at,
    entry,
  )

  pub stored-IsQueue : IsQueue stored
  stored-IsQueue = record {
    room = length-set q.entries q.tail e ∙ v.room;
    head_in = v.head_in;
    tail_in = omega arith;
  }

-- A queue of at most 14 events, oldest first: what clients may rely on once the first event has
-- been taken.
pub put_bounded : List InputEvent → InputEvent → List InputEvent × Bool
put_bounded xs e = if length xs == 14 then (xs, true) else (xs ++ (e ∷ []), false)

pub take_first : List InputEvent → List InputEvent × Option InputEvent
take_first [] = ([], none)
take_first (x ∷ xs) = (xs, some x)

pub length-contents : (q : InputQueue) → length (contents q) ≡ pending q
length-contents q = length-window q.entries (q.head + 1) (pending q)

-- `input_enqueue_event` on a queue that meets the invariant and has been popped before appends the event, or reports that
-- the queue is full and keeps it, exactly when it holds 14 events; the invariant is kept.
pub enqueue_event-refines :
    (q : InputQueue) (e : InputEvent)
    → IsQueue q
    → IsStarted q
    → let (q', full) = enqueue_event q e in
      ((contents q', full) ≡ put_bounded (contents q) e) × IsQueue q' × IsStarted q'
unfolding enqueue_event is_full put_bounded
enqueue_event-refines q e v (low, few) = elim (Bool-cases (q.head == (q.tail + 1) % 16)) [
  | inl full ↦
      let fourteen : pending q ≡ 14 = ground (arith, v.tail_in) in
      let same : (length (contents q) == 14) ≡ true = ground (arith, length-contents q) in
      rw (full, same) (refl, v, (low, few))
  | inr more ↦
      let less : pending q < 14 = ground (arith, v.tail_in) in
      let same : (length (contents q) == 14) ≡ false = ground (arith, length-contents q) in
      rw (more, same)
        (
          ap (λ xs. (xs, false)) (contents-stored q e v (omega arith)),
          stored-IsQueue q e v (omega arith),
          (low, omega (arith, v.tail_in)),
        )
]

abbrev popped : InputQueue → InputQueue
popped q = record q { head = u8 (q.head + 1) % 16 }

-- The window of a queue that is not empty, apart.
contents-cons :
    (q : InputQueue)
    → IsQueue q
    → pending q ≢ 0
    → contents q ≡ get_or q.entries ((q.head + 1) % 16) zero_event ∷ contents (popped q)
unfolding window
contents-cons q v some_left =
    let e : pending q ≡ suc (pending (popped q)) = ground (arith, v.head_in, v.tail_in) in
    rw (
      e,
      window-round q.entries (q.head + 1 + 1) ((popped q).head + 1) (pending (popped q))
          (ground (arith, v.head_in)),
    )

contents-nil : (q : InputQueue) → pending q ≡ 0 → contents q ≡ []
unfolding window
contents-nil q e = rw e

-- On a queue that meets the invariant `input_event_pop` hands out the oldest event and keeps the others, or reports an empty queue and
-- keeps it; the invariant is kept.
pub event_pop-refines :
    (q : InputQueue)
    → IsQueue q
    → let (q', out) = event_pop q in ((contents q', out) ≡ take_first (contents q)) × IsQueue q'
unfolding event_pop is_empty take_first
event_pop-refines q v = elim (Bool-cases ((q.head + 1) % 16 == q.tail)) [
  | inl empty ↦
      let zero_left : pending q ≡ 0 = ground (arith, v.tail_in) in
      rw (empty, contents-nil q zero_left) (refl, v)
  | inr more ↦
      let some_left : pending q ≢ 0 = ground (arith, v.tail_in) in
      rw (more, contents-cons q v some_left)
        (refl, record { room = v.room; head_in = inl (omega arith); tail_in = v.tail_in })
]

-- A pop that finds an event starts the queue, and a started queue stays so.
pub event_pop-IsStarted :
    (q : InputQueue) → IsQueue q → (pending q ≢ 0) ⊎ IsStarted q → IsStarted (event_pop q).0
unfolding event_pop is_empty
event_pop-IsStarted q v start = ground (arith, v.head_in, v.tail_in)
