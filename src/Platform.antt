-- ===== src/Platform.antt =====
-- The descriptor table, the interrupt controllers and the timer: os/src/arch/x86/interrupts/idt.c,
-- interrupts.c and pic.c, os/src/arch/x86/timer/pit.c. Port writes are listed in their order.
pub mod Gates
pub mod Lines
pub mod Rate
pub mod Ports
mod Tests
use abel_os.Base.{
  ℕ, zero, suc, ◌+◌, ◌-◌, ◌*◌, ◌/◌, ◌^◌, bit_and, bit_or, Bool, true, false, List, [], ◌∷◌, ◌++◌,
  Option, none, some, ◌==◌, if◌then◌else◌, get_or, set, length, u8, u16, u32, u64, ◌>>>◌, ◌<<<◌,
}
use abel_os.Platform.Ports.{
  pic1_command, pic1_data, pic2_command, pic2_data, icw1_icw4, icw1_init, icw3_master_slave2,
  icw3_slave_id2, icw4_8086, pit_channel0, pit_command, pit_sc_channel0, pit_rw_lmsb, pit_mode_rate,
  pit_bin,
}

pub record IdtEntry : Type 0 where
  pub offset_low : ℕ
  pub segment : ℕ
  pub reserved : ℕ
  pub flags : ℕ
  pub offset_high : ℕ

pub record IdtDescriptor : Type 0 where
  pub size : ℕ
  pub offset : ℕ

-- The addresses of the assembly stubs and of the table.
pub record Symbols : Type 0 where
  pub isr : ℕ → ℕ
  pub irq : ℕ → ℕ
  pub default_isr : ℕ
  pub idt_addr : ℕ

pub isr_stubs : Symbols → List ℕ
isr_stubs s =
    s.isr 0
    ∷ (s.isr 1
        ∷ (s.isr 2
            ∷ (s.isr 3
                ∷ (s.isr 4
                    ∷ (s.isr 5
                        ∷ (s.isr 6
                            ∷ (s.isr 7
                                ∷ (s.isr 8
                                    ∷ (s.isr 9
                                        ∷ (s.isr 10
                                            ∷ (s.isr 11
                                                ∷ (s.isr 12
                                                    ∷ (s.isr 13
                                                        ∷ (s.isr 14
                                                            ∷ (s.isr 15
                                                            ∷ (s.isr 16
                                                            ∷ (s.isr 17
                                                            ∷ (s.isr 18
                                                            ∷ (s.isr 19
                                                            ∷ (s.isr 20
                                                            ∷ (s.isr 21
                                                            ∷ (s.isr 22
                                                            ∷ (s.isr 23
                                                            ∷ (s.isr 24
                                                            ∷ (s.isr 25
                                                            ∷ (s.isr 26
                                                            ∷ (s.isr 27
                                                            ∷ (s.isr 28
                                                            ∷ (s.isr 29
                                                            ∷ (s.isr 30
                                                            ∷ (s.isr 31
                                                            ∷ [])))))))))))))))))))))))))))))))

pub irq_stubs : Symbols → List ℕ
irq_stubs s =
    s.irq 0
    ∷ (s.irq 1
        ∷ (s.irq 2
            ∷ (s.irq 3
                ∷ (s.irq 4
                    ∷ (s.irq 5
                        ∷ (s.irq 6
                            ∷ (s.irq 7
                                ∷ (s.irq 8
                                    ∷ (s.irq 9
                                        ∷ (s.irq 10
                                            ∷ (s.irq 11
                                                ∷ (s.irq 12
                                                    ∷ (s.irq 13
                                                        ∷ (s.irq 14 ∷ (s.irq 15 ∷ [])))))))))))))))

abbrev pub Idt : Type 0
Idt = List IdtEntry

pub idt_set_entry : (idx offset segment flags : ℕ) → Idt → Idt
idt_set_entry idx offset segment flags idt = set idt idx (record {
  offset_low = bit_and offset 0x0ffff;
  segment = segment;
  reserved = 0;
  flags = flags;
  offset_high = offset >>> 16;
})

-- The loops of `idt_init` from `i` on: over the stubs of a table, whose gates start at `base`, and with
-- the default routine.
pub set_stubs : (left i base : ℕ) → List ℕ → Idt → Idt
set_stubs zero i base stubs idt = idt
set_stubs (suc left) i base stubs idt =
    set_stubs left (i + 1) base stubs
      (idt_set_entry (u8 (i + base)) (get_or stubs i 0) 0x08 0x8E idt)

pub set_default : (left i default_isr : ℕ) → Idt → Idt
set_default zero i default_isr idt = idt
set_default (suc left) i default_isr idt =
    set_default left (i + 1) default_isr (idt_set_entry (u8 i) default_isr 0x08 0x8E idt)

-- The table behind `idt_init`, and the descriptor that it loads.
pub idt_init : Symbols → Idt → Idt × IdtDescriptor
idt_init s idt = (
  set_default (255 - (32 + 16)) (32 + 16) s.default_isr
      (set_stubs 16 0 32 (irq_stubs s) (set_stubs 32 0 0 (isr_stubs s) idt)),
  record { size = u16 (256 * 8 - 1); offset = s.idt_addr },
)

abbrev pub Outs : Type 0
Outs = List (ℕ × ℕ)

pub pic_remap : Outs → Outs
pic_remap outs =
    let icw1 = bit_or icw1_init icw1_icw4 in
    outs
    ++ ((pic1_command, icw1)
        ∷ ((pic2_command, icw1)
            ∷ ((pic1_data, 0x20)
                ∷ ((pic2_data, 0x28)
                    ∷ ((pic1_data, icw3_master_slave2)
                        ∷ ((pic2_data, icw3_slave_id2)
                            ∷ ((pic1_data, icw4_8086) ∷ ((pic2_data, icw4_8086) ∷ []))))))))

pub pic_mask_all : Outs → Outs
pic_mask_all outs = outs ++ ((0x21, 0xff) ∷ ((0xa1, 0xff) ∷ []))

pub pic_unmask_all : Outs → Outs
pic_unmask_all outs = outs ++ ((0x21, 0x00) ∷ ((0xa1, 0x00) ∷ []))

-- What the set-up of the interrupts changes. The table is set before the processor is told of it, and
-- interrupts are enabled last.
pub record Cpu : Type 0 where
  pub idt : Idt
  pub idtr : Option IdtDescriptor
  pub outs : Outs
  pub interrupts : Bool

pub arch_init_int_subsystem : Symbols → Cpu → Cpu
arch_init_int_subsystem s c =
    let (idt, idtr) = idt_init s c.idt in
    record {
      idt = idt;
      idtr = some idtr;
      outs = pic_mask_all (pic_remap c.outs);
      interrupts = true;
    }

pub record Timer : Type 0 where
  pub ticks_from_system_start : ℕ
  pub current_interrupt_freq_hz : ℕ
  pub outs : Outs

abbrev pub pit_base_freq_hz : ℕ
pit_base_freq_hz = 1193182

pub pit_irq_handler : Timer → Timer
pit_irq_handler t = record t { ticks_from_system_start = u64 (t.ticks_from_system_start + 1) }

-- `none` is the division by zero.
pub config_pit_freq : ℕ → Timer → Option Timer
config_pit_freq freq t =
    if freq == 0
    then none
    else let divisor = u16 (pit_base_freq_hz / freq) in
      some (record t {
        outs =
            t.outs ++ ((pit_channel0, bit_and divisor 0xff) ∷ ((pit_channel0, divisor >>> 8) ∷ []));
      })

pub pit_init : Timer → Option Timer
pit_init t =
    let mode = bit_or (bit_or (bit_or pit_sc_channel0 pit_rw_lmsb) pit_mode_rate) pit_bin in
    config_pit_freq t.current_interrupt_freq_hz
      (record t { outs = t.outs ++ ((pit_command, mode) ∷ []) })

pub pit_set_frequency : ℕ → Timer → Option Timer
pit_set_frequency new_freq t =
    config_pit_freq new_freq (record t { current_interrupt_freq_hz = new_freq })
