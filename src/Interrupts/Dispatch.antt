-- ===== src/Interrupts/Dispatch.antt =====
-- Which handlers a vector reaches, and which vectors read behind a table.
use abel_os.Base.{
  List, if◌then◌else◌, ℕ, ◌+◌, ◌-◌, ◌<◌, ◌≡◌, ◌≢◌, refl, ◌∙◌, true, false, ◌&&◌, [], ◌∷◌, ◌++◌,
  arith, ltb, leb, ◌==◌, get_or, set, length, length-set, get_or-set, u8, ◌⊎◌, inl, inr, Bool-cases,
  ◌↔◌, ==_iff,
}
use abel_os.Interrupts.{
  Effect, call, outb, returns, faults, Tables, max_irq_number, register_irq_handler,
  register_irq_post_routine, vector_is_exception, vector_is_irq, vector_to_irqn, call_if, send_eoi,
  irq_dispatch, exception_handlers, exception_dispatch, interrupt_dispatch,
}

-- The tables as they are declared, with 16 entries each.
pub record IsTables (t : Tables) : Type 0 where
  pub handlers : length t.irq_handlers ≡ 16
  pub posts : length t.irq_post_routine ≡ 16

line_of : (j : ℕ) → j < 16 → vector_to_irqn (32 + j) ≡ j
unfolding vector_to_irqn
line_of j h = omega arith

-- A vector of one of the 16 lines runs its handler, ends the interrupt, and runs its post routine.
line_lem :
    (j : ℕ) (t : Tables)
    → IsTables t
    → j < 16
    → irq_dispatch (32 + j) t
      ≡ returns (
          call_if (get_or t.irq_handlers j 0)
          ++ (send_eoi j ++ call_if (get_or t.irq_post_routine j 0)))
unfolding irq_dispatch
line_lem j t w h =
    let byte : u8 (vector_to_irqn (32 + j)) ≡ j = rw (line_of j h) (omega arith) in
    let in1 : ltb j (length t.irq_handlers) ≡ true = ground (arith, w.handlers) in
    let in2 : ltb j (length t.irq_post_routine) ≡ true = ground (arith, w.posts) in
    rw (line_of j h, irq_dispatch) (rw in1 (rw (line_of j h) (rw (in2, byte))))

irq_lem :
    (z j : ℕ) (t : Tables)
    → IsTables t
    → j < 16
    → interrupt_dispatch z (32 + j) t
      ≡ returns (
          call_if (get_or t.irq_handlers j 0)
          ++ (send_eoi j ++ call_if (get_or t.irq_post_routine j 0)))
unfolding interrupt_dispatch vector_is_exception vector_is_irq
irq_lem z j t w h =
    let no_exception : (leb 0 (32 + j) && leb (32 + j) 31) ≡ false = ground arith in
    let is_irq : (leb 32 (32 + j) && leb (32 + j) 48) ≡ true = ground arith in
    rw (no_exception, is_irq) (line_lem j t w h)

-- The end of an interrupt, as the controllers are wired: a line from 8 on reaches the processor
-- through both controllers, one below through the first only.
abbrev pub end_of_line : ℕ → List Effect
end_of_line irqn =
    if ltb irqn 8 then outb 0x20 0x20 ∷ [] else outb 0xa0 0x20 ∷ (outb 0x20 0x20 ∷ [])

send_eoi-end_of_line : (irqn : ℕ) → send_eoi irqn ≡ end_of_line irqn
unfolding send_eoi
send_eoi-end_of_line irqn = elim (Bool-cases (ltb irqn 8)) [
  | inl low ↦ let first : leb 8 irqn ≡ false = ground arith in rw (low, first) refl
  | inr high ↦ let both : leb 8 irqn ≡ true = ground arith in rw (high, both) refl
]

-- With tables of 16 entries, once a handler and a post routine that are not null are registered for one
-- of the 16 lines, its vector runs the handler, then writes the end of the interrupt (0x20) to the
-- command port of the first controller, before that to the second one's for the lines 8 to 15, then
-- runs the post routine, and nothing else.
pub interrupt_dispatch-registered :
    (z irqn handler post : ℕ) (t : Tables)
    → IsTables t
    → irqn < max_irq_number
    → handler ≢ 0
    → post ≢ 0
    → interrupt_dispatch z
        (32 + irqn)
        (register_irq_post_routine irqn post (register_irq_handler irqn handler t))
      ≡ returns (call handler ∷ (end_of_line irqn ++ (call post ∷ [])))
unfolding register_irq_handler register_irq_post_routine
interrupt_dispatch-registered z irqn handler post t w h nh np =
    let w' : IsTables (register_irq_post_routine irqn post (register_irq_handler irqn handler t)) =
      record {
        handlers = length-set t.irq_handlers irqn handler ∙ w.handlers;
        posts = length-set t.irq_post_routine irqn post ∙ w.posts;
      } in
    let h1 : get_or (set t.irq_handlers irqn handler) irqn 0 ≡ handler =
      ground (arith, get_or-set t.irq_handlers irqn irqn handler 0, w.handlers) in
    let h2 : get_or (set t.irq_post_routine irqn post) irqn 0 ≡ post =
      ground (arith, get_or-set t.irq_post_routine irqn irqn post 0, w.posts) in
    let c1 : (handler == 0) ≡ false = ground arith in
    let c2 : (post == 0) ≡ false = ground arith in
    irq_lem z irqn _ w' h ∙ rw (h1, h2, c1, c2, send_eoi-end_of_line irqn)

-- Registering a handler for one line changes what the vector of no other line does.
pub interrupt_dispatch-other_line :
    (z irqn handler j : ℕ) (t : Tables)
    → IsTables t
    → j < max_irq_number
    → irqn ≢ j
    → interrupt_dispatch z (32 + j) (register_irq_handler irqn handler t)
      ≡ interrupt_dispatch z (32 + j) t
unfolding register_irq_handler
interrupt_dispatch-other_line z irqn handler j t w h ne =
    let w' : IsTables (register_irq_handler irqn handler t) = record {
      handlers = length-set t.irq_handlers irqn handler ∙ w.handlers;
      posts = w.posts;
    } in
    let kept : get_or (set t.irq_handlers irqn handler) j 0 ≡ get_or t.irq_handlers j 0 =
      ground (arith, get_or-set t.irq_handlers irqn j handler 0) in
    rw (irq_lem z j (register_irq_handler irqn handler t) w' h, kept, irq_lem z j t w h)

exception_31 : (z : ℕ) (t : Tables) → interrupt_dispatch z 31 t ≡ faults
unfolding interrupt_dispatch vector_is_exception exception_dispatch exception_handlers
exception_31 z t = refl

vector_48 : (z : ℕ) (t : Tables) → IsTables t → interrupt_dispatch z 48 t ≡ faults
unfolding interrupt_dispatch vector_is_exception vector_is_irq irq_dispatch vector_to_irqn
vector_48 z t w =
    let outside : ltb 16 (length t.irq_handlers) ≡ false = ground (arith, w.handlers) in
    rw (outside, irq_dispatch)

exception_lem : (z v : ℕ) (t : Tables) → v < 31 → interrupt_dispatch z v t ≢ faults
unfolding interrupt_dispatch vector_is_exception exception_dispatch exception_handlers
exception_lem z v t h =
    let is_exception : (leb 0 v && leb v 31) ≡ true = ground arith in
    let inside : ltb v 31 ≡ true = ground arith in
    rw is_exception (rw (inside, exception_dispatch) (λ p. cc))

beyond_lem : (z v : ℕ) (t : Tables) → 48 < v → interrupt_dispatch z v t ≢ faults
unfolding interrupt_dispatch vector_is_exception vector_is_irq
beyond_lem z v t h =
    let no_exception : (leb 0 v && leb v 31) ≡ false = ground arith in
    let no_irq : (leb 32 v && leb v 48) ≡ false = ground arith in
    rw (no_exception, no_irq) (λ p. cc)

inner_lem :
    (z v : ℕ) (t : Tables) → IsTables t → v ≢ 31 → v ≢ 48 → interrupt_dispatch z v t ≢ faults
inner_lem z v t w n31 n48 = elim (Bool-cases (ltb v 31)) [
  | inl low ↦ exception_lem z v t (ground arith)
  | inr not_low ↦ elim (Bool-cases (ltb 48 v)) [
    | inl high ↦ beyond_lem z v t (ground arith)
    | inr not_high ↦
        let back : 32 + (v - 32) ≡ v = ground arith in
        let run = irq_lem z (v - 32) t w (ground arith) in λ p. let both = rw back at run in cc
  ]
]

-- With tables of 16 entries, a dispatch reads behind a table at exactly two of the vectors: 31, for
-- which `exception_handlers` has no entry, and 48, which the test for a line lets through.
pub interrupt_dispatch-faults :
    (z v : ℕ) (t : Tables)
    → IsTables t
    → (interrupt_dispatch z v t ≡ faults) ↔ ((v ≡ 31) ⊎ (v ≡ 48))
interrupt_dispatch-faults z v t w = (
  only,
  λ e. elim e [ inl is31 ↦ rw is31 (exception_31 z t) | inr is48 ↦ rw is48 (vector_48 z t w) ],
)
  where
    only : interrupt_dispatch z v t ≡ faults → (v ≡ 31) ⊎ (v ≡ 48)
    only p = elim (Bool-cases (v == 31)) [
      | inl e ↦ inl ((==_iff _ _).0 e)
      | inr n31 ↦ elim (Bool-cases (v == 48)) [
        | inl e ↦ inr ((==_iff _ _).0 e)
        | inr n48 ↦ absurd (inner_lem z v t w (ground arith) (ground arith) p)
      ]
    ]
