-- ===== src/Platform/Lines.antt =====
-- From a line of the interrupt controllers to its stub.
use abel_os.Base.{ℕ, ◌+◌, ◌-◌, ◌*◌, ◌/◌, ◌%◌, [], ◌∷◌, ltb, ◌==◌, if◌then◌else◌}
use abel_os.Platform.{Outs}

-- The word that an interrupt controller takes a byte on its data port for.
pub data Awaits : Type 0 where
  mask_word : Awaits
  icw2 : Awaits
  icw3 : Awaits
  icw4 : Awaits

-- An interrupt controller as its data sheet (8259A) has it: the first command word, the vector of the
-- first line, the wiring of the two controllers, the mode, and the lines that it keeps back.
pub record Controller : Type 0 where
  pub awaits : Awaits
  pub icw1 : ℕ
  pub offset : ℕ
  pub cascade : ℕ
  pub mode : ℕ
  pub mask : ℕ

-- What follows the cascade word: bit 0 of ICW1 asks for ICW4.
abbrev last_word : ℕ → Awaits
last_word w = if w % 2 == 1 then icw4 else mask_word

-- A byte on the command port: with bit 4 it is ICW1, which clears the mask and starts the
-- initialisation.
abbrev command : ℕ → Controller → Controller
command v c = if v / 16 % 2 == 1 then record c { awaits = icw2; icw1 = v; mask = 0 } else c

-- A byte on the data port. ICW2 gives the upper five bits of the vectors; bit 1 of ICW1 leaves out ICW3.
abbrev data_byte : ℕ → Controller → Controller
data_byte v c = elim c.awaits [
  | mask_word ↦ record c { mask = v }
  | icw2 ↦ record c {
    awaits = if c.icw1 / 2 % 2 == 1 then last_word c.icw1 else icw3;
    offset = v / 8 * 8;
  }
  | icw3 ↦ record c { awaits = last_word c.icw1; cascade = v }
  | icw4 ↦ record c { awaits = mask_word; mode = v }
]

-- The controller behind two ports after bytes were written to ports, in their order.
abbrev pub after_outs : (command_port data_port : ℕ) → Outs → Controller → Controller
after_outs cp dp [] c = c
after_outs cp dp ((p, v) ∷ outs) c =
    after_outs cp dp outs (if p == cp then command v c else if p == dp then data_byte v c else c)

-- The vector that line `n` raises: lines 0 to 7 belong to the first controller.
abbrev pub line_vector : ℕ → Controller → Controller → ℕ
line_vector n first second = if ltb n 8 then first.offset + n else second.offset + (n - 8)
