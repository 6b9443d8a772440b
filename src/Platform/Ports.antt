-- ===== src/Platform/Ports.antt =====
-- The ports and bytes of os/include/arch/x86/interrupt/pic.h and os/include/arch/x86/timer/pit.h.
use abel_os.Base.{ℕ, ◌<<<◌}

abbrev pub pic1_command : ℕ
pic1_command = 0x20

abbrev pub pic1_data : ℕ
pic1_data = 0x21

abbrev pub pic2_command : ℕ
pic2_command = 0xa0

abbrev pub pic2_data : ℕ
pic2_data = 0xa1

abbrev pub icw1_icw4 : ℕ
icw1_icw4 = 0x01

abbrev pub icw1_init : ℕ
icw1_init = 0x10

abbrev pub pic_cascade_irq : ℕ
pic_cascade_irq = 2

abbrev pub icw3_master_slave2 : ℕ
icw3_master_slave2 = 1 <<< pic_cascade_irq

abbrev pub icw3_slave_id2 : ℕ
icw3_slave_id2 = 2

abbrev pub icw4_8086 : ℕ
icw4_8086 = 0x01

abbrev pub pit_channel0 : ℕ
pit_channel0 = 0x40

abbrev pub pit_command : ℕ
pit_command = 0x43

abbrev pub pit_sc_channel0 : ℕ
pit_sc_channel0 = 0x00

abbrev pub pit_rw_lmsb : ℕ
pit_rw_lmsb = 0x30

abbrev pub pit_mode_rate : ℕ
pit_mode_rate = 0x04

abbrev pub pit_bin : ℕ
pit_bin = 0x00

abbrev pub default_pit_interrupt_freq_hz : ℕ
default_pit_interrupt_freq_hz = 100
