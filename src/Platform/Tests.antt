-- ===== src/Platform/Tests.antt =====
-- Runs of the set-up.
use abel_os.Base.{
  ℕ, ◌+◌, ◌-◌, ◌*◌, ◌/◌, ◌%◌, ◌^◌, ◌<◌, ◌≡◌, ◌≢◌, refl, false, [], ◌∷◌, ◌++◌, none, some, ltb, ◌⊎◌,
  if◌then◌else◌, get_or, length, replicate, length-replicate,
}
use abel_os.Platform.{
  IdtEntry, Symbols, Idt, Cpu, Timer, idt_init, pit_set_frequency, pit_init, config_pit_freq,
}
use abel_os.Platform.Gates.{gate, target, idt_init-gates}
use abel_os.Platform.Lines.{mask_word, Controller}
use abel_os.Platform.Rate.{pit_set_frequency-divisor}

abbrev no_gate : IdtEntry
no_gate = record { offset_low = 0; segment = 0; reserved = 0; flags = 0; offset_high = 0 }

unfoldable empty_idt : Idt
empty_idt = replicate 256 no_gate

empty_idt_full : length empty_idt ≡ 256
unfolding empty_idt
empty_idt_full = length-replicate 256 no_gate

-- Stubs of 16 bytes each.
abbrev stubs : Symbols
stubs = record {
  isr = λ n. 0xC0101000 + 16 * n;
  irq = λ n. 0xC0102000 + 16 * n;
  default_isr = 0xC0103000;
  idt_addr = 0xC0200000;
}

abbrev reset : Cpu
reset = record { idt = empty_idt; idtr = none; outs = []; interrupts = false }

abbrev timer : Timer
timer = record { ticks_from_system_start = 0; current_interrupt_freq_hz = 100; outs = [] }

-- 1193182 / 100 is 11931, which is 0x2e9b.
pit_init_outs :
    pit_init timer
    ≡ some (record timer { outs = (0x43, 0x34) ∷ ((0x40, 0x9b) ∷ ((0x40, 0x2e) ∷ [])) })
unfolding pit_init config_pit_freq
pit_init_outs = refl

-- The last vector has no gate.
idt_init-gates_example :
    (get_or (idt_init stubs empty_idt).0 255 no_gate ≡ (
      if ltb 255 32
      then gate (0xC0101000 + 16 * 255)
      else if ltb 255 48
      then gate (0xC0102000 + 16 * (255 - 32))
      else if ltb 255 255
      then gate 0xC0103000
      else get_or empty_idt 255 no_gate))
    × ((a : ℕ) → target (gate a) ≡ a)
idt_init-gates_example = idt_init-gates stubs empty_idt 255 no_gate empty_idt_full

-- Both controllers as the start left them: the first line at vector 8, no line kept back.
abbrev bios : Controller
bios = record { awaits = mask_word; icw1 = 0x11; offset = 8; cascade = 0; mode = 1; mask = 0 }

pit_set_frequency-divisor_example :
    ((◌≡◌ {A = ℕ} 18 0) × (pit_set_frequency 18 timer ≡ none))
    ⊎ ((◌≢◌ {A = ℕ} 18 0)
        × (low high : ℕ) × (pit_set_frequency 18 timer
            ≡ some (record timer {
              current_interrupt_freq_hz = 18;
              outs = [] ++ ((0x40, low) ∷ ((0x40, high) ∷ []));
            }))
        × (low < 256)
        × (high < 256)
        × (low + 256 * high ≡ (1193182 / 18) % 2 ^ 16))
pit_set_frequency-divisor_example = pit_set_frequency-divisor 18 timer
