-- ===== src/Interrupts.antt =====
-- Interrupt dispatch: os/src/kernel/interrupt/interrupt.c, os/src/kernel/interrupt/irq.c,
-- os/src/arch/x86/interrupts/irq.c, exception.c and the end of interrupt of pic.c. A handler is an
-- address, 0 for null; a call of it is an effect, since those that the kernel registers change
-- neither table.
pub mod Dispatch
mod Tests
use abel_os.Base.{
  ℕ, ◌+◌, Bool, true, false, ◌&&◌, List, [], ◌∷◌, ◌++◌, Option, none, some, ltb, leb, ◌==◌,
  if◌then◌else◌, get_or, set, length, replicate, u8, u32, sub32,
}

-- What a dispatch does, in order: `printed` are the lines on an exception.
pub data Effect : Type 0 where
  printed : ℕ → Effect
  call : ℕ → Effect
  outb : (port value : ℕ) → Effect

-- How it ends: it returns, it stays in a loop, or it reads behind a table.
pub data Outcome : Type 0 where
  returns halts : List Effect → Outcome
  faults : Outcome

-- The two static tables.
pub record Tables : Type 0 where
  pub irq_handlers : List ℕ
  pub irq_post_routine : List ℕ

abbrev pub max_irq_number : ℕ
max_irq_number = 16

pub register_irq_handler : ℕ → ℕ → Tables → Tables
register_irq_handler irqn handler t = record t { irq_handlers = set t.irq_handlers irqn handler }

pub register_irq_post_routine : ℕ → ℕ → Tables → Tables
register_irq_post_routine irqn handler t = record t {
  irq_post_routine = set t.irq_post_routine irqn handler;
}

pub unregister_irq_handler : ℕ → Tables → Tables
unregister_irq_handler irqn t = record t { irq_handlers = set t.irq_handlers irqn 0 }

unfoldable pub vector_is_exception : ℕ → Bool
vector_is_exception v = leb 0 v && leb v 31

unfoldable pub vector_is_irq : ℕ → Bool
vector_is_irq v = leb 32 v && leb v 48

unfoldable pub vector_to_irqn : ℕ → ℕ
vector_to_irqn v = sub32 v 32

-- `table[i]`, `none` behind its end.
abbrev pub entry_at : List ℕ → ℕ → Option ℕ
entry_at table i = if ltb i (length table) then some (get_or table i 0) else none

abbrev pub call_if : ℕ → List Effect
call_if handler = if handler == 0 then [] else call handler ∷ []

-- `PIC1_COMMAND` is 0x20, `PIC2_COMMAND` 0xa0 and `PIC_CMD_EOI` 0x20.
pub send_eoi : ℕ → List Effect
send_eoi irqn = (if leb 8 irqn then outb 0xa0 0x20 ∷ [] else []) ++ (outb 0x20 0x20 ∷ [])

pub irq_dispatch : ℕ → Tables → Outcome
irq_dispatch v t =
    let irqn = vector_to_irqn v in
    elim (entry_at t.irq_handlers irqn) [
      | none ↦ faults
      | some handler ↦ elim (entry_at t.irq_post_routine irqn) [
        | none ↦ faults
        | some post ↦ returns (call_if handler ++ (send_eoi (u8 irqn) ++ call_if post))
      ]
    ]

-- `exception_handlers`: 31 entries, the first of which is the address of `zero_division_handler`.
pub exception_handlers : ℕ → List ℕ
exception_handlers zero_division_handler = zero_division_handler ∷ replicate 30 0

-- Nothing returns from an exception.
pub exception_dispatch : ℕ → ℕ → Outcome
exception_dispatch zero_division_handler v =
    elim (entry_at (exception_handlers zero_division_handler) v) [
      | none ↦ faults
      | some handler ↦ halts (printed v ∷ call_if handler)
    ]

pub interrupt_dispatch : ℕ → ℕ → Tables → Outcome
interrupt_dispatch zero_division_handler v t =
    if vector_is_exception v
    then exception_dispatch zero_division_handler v
    else if vector_is_irq v
    then irq_dispatch v t
    else returns []
