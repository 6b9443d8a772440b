-- ===== src/Interrupts/Tests.antt =====
-- Runs of the dispatch: the keyboard's line, and line 8 behind the second controller.
use abel_os.Base.{◌+◌, ◌≡◌, refl, [], ◌∷◌, arith, replicate}
use abel_os.Interrupts.{
  call, outb, returns, Tables, register_irq_handler, register_irq_post_routine, vector_is_exception,
  vector_is_irq, vector_to_irqn, send_eoi, irq_dispatch, interrupt_dispatch,
}
use abel_os.Interrupts.Dispatch.{IsTables, interrupt_dispatch-registered}

abbrev empty_tables : Tables
empty_tables = record { irq_handlers = replicate 16 0; irq_post_routine = replicate 16 0 }

empty_tables-IsTables : IsTables empty_tables
empty_tables-IsTables = record { handlers = refl; posts = refl }

keyboard_run :
    interrupt_dispatch 0x500 33 (register_irq_handler 1 0x700 empty_tables)
    ≡ returns (call 0x700 ∷ outb 0x20 0x20 ∷ [])
unfolding interrupt_dispatch register_irq_handler vector_is_exception vector_is_irq irq_dispatch
    vector_to_irqn send_eoi
keyboard_run = refl

interrupt_dispatch-registered_example :
    interrupt_dispatch 0x500
      (32 + 8)
      (register_irq_post_routine 8 0x800 (register_irq_handler 8 0x700 empty_tables))
    ≡ returns (call 0x700 ∷ (outb 0xa0 0x20 ∷ (outb 0x20 0x20 ∷ (call 0x800 ∷ []))))
interrupt_dispatch-registered_example =
    interrupt_dispatch-registered 0x500 8 0x700 0x800 empty_tables empty_tables-IsTables
      (omega arith) (omega arith) (omega arith)
