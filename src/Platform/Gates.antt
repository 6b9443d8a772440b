-- ===== src/Platform/Gates.antt =====
-- What stands in the gates of the table, and which line reaches which gate.
use abel_os.Base.{
  ℕ, zero, suc, ◌+◌, ◌-◌, ◌*◌, ◌/◌, ◌%◌, ◌≤◌, ◌<◌, ◌≡◌, refl, ◌∙◌, ap, true, ◌&&◌, List, [], ◌∷◌,
  ltb, leb, ◌==◌, if◌then◌else◌, get_or, length, length-set, get_or-set, u8, inl, inr, Bool-cases,
  arith,
}
use abel_os.Base.Masks.{bit_and_low16}
use abel_os.Platform.{
  IdtEntry, Symbols, isr_stubs, irq_stubs, Idt, idt_set_entry, set_stubs, set_default, idt_init,
}

-- The interrupt gate of a handler, in the kernel's code segment.
pub gate : ℕ → IdtEntry
gate a = record {
  offset_low = a % 65536;
  segment = 0x08;
  reserved = 0;
  flags = 0x8E;
  offset_high = a / 65536;
}

-- The address that the processor takes from a gate.
abbrev pub target : IdtEntry → ℕ
target e = e.offset_low + 65536 * e.offset_high

target-gate : (a : ℕ) → target (gate a) ≡ a
unfolding gate
target-gate a = omega arith

get_or-idt_set_entry :
    (idx a : ℕ) (idt : Idt) (v : ℕ) (d : IdtEntry)
    → idx < length idt
    → get_or (idt_set_entry idx a 0x08 0x8E idt) v d ≡ (if idx == v then gate a else get_or idt v d)
unfolding idt_set_entry gate
get_or-idt_set_entry idx a idt v d h =
    let inside : ltb idx (length idt) ≡ true = ground arith in
    rw (bit_and_low16 a, get_or-set idt idx v (gate a) d, inside) refl

length-idt_set_entry :
    (idx a : ℕ) (idt : Idt) → length (idt_set_entry idx a 0x08 0x8E idt) ≡ length idt
unfolding idt_set_entry
length-idt_set_entry idx a idt = length-set idt idx _

length-set_stubs :
    (left i base : ℕ) (stubs : List ℕ) (idt : Idt)
    → length (set_stubs left i base stubs idt) ≡ length idt
unfolding set_stubs idt_set_entry
length-set_stubs zero i base stubs idt = refl
length-set_stubs (suc left) i base stubs idt =
    length-set_stubs left (i + 1) base stubs _ ∙ length-set idt (u8 (i + base)) _

get_or-set_stubs :
    (left i base : ℕ) (stubs : List ℕ) (idt : Idt) (v : ℕ) (d : IdtEntry)
    → length idt ≡ 256
    → i + base + left ≤ 256
    → get_or (set_stubs left i base stubs idt) v d ≡ (
        if leb (i + base) v && ltb v (i + base + left)
        then gate (get_or stubs (v - base) 0)
        else get_or idt v d)
unfolding set_stubs
get_or-set_stubs zero i base stubs idt v d full h = ground arith
get_or-set_stubs (suc left) i base stubs idt v d full h =
    let small : u8 (i + base) ≡ i + base = omega arith in
    let idt' = idt_set_entry (i + base) (get_or stubs i 0) 0x08 0x8E idt in
    let one = get_or-idt_set_entry (i + base) (get_or stubs i 0) idt v d (omega arith) in
    let ih =
      get_or-set_stubs left (i + 1) base stubs idt' v d
        (length-idt_set_entry (i + base) (get_or stubs i 0) idt ∙ full) (omega arith) in
    rw small (elim (Bool-cases (i + base == v)) [
      | inl same ↦
          let e : v - base ≡ i = ground arith in
          let stub = ap (λ j. gate (get_or stubs j 0)) e in ground arith
      | inr other ↦ ground arith
    ])

get_or-set_default :
    (left i a : ℕ) (idt : Idt) (v : ℕ) (d : IdtEntry)
    → length idt ≡ 256
    → i + left ≤ 256
    → get_or (set_default left i a idt) v d
      ≡ (if leb i v && ltb v (i + left) then gate a else get_or idt v d)
unfolding set_default
get_or-set_default zero i a idt v d full h = ground arith
get_or-set_default (suc left) i a idt v d full h =
    let small : u8 i ≡ i = omega arith in
    let idt' = idt_set_entry i a 0x08 0x8E idt in
    let one = get_or-idt_set_entry i a idt v d (omega arith) in
    let ih =
      get_or-set_default left (i + 1) a idt' v d (length-idt_set_entry i a idt ∙ full)
        (omega arith) in
    rw small (ground arith)

-- A table of stubs, written as a list.
abbrev stubs_from : (left i : ℕ) → (ℕ → ℕ) → List ℕ
stubs_from zero i f = []
stubs_from (suc left) i f = f i ∷ stubs_from left (i + 1) f

get_or-stubs_from :
    (left i : ℕ) (f : ℕ → ℕ) (v : ℕ) → v < left → get_or (stubs_from left i f) v 0 ≡ f (i + v)
get_or-stubs_from zero i f v h = absurd (omega arith)
get_or-stubs_from (suc left) i f zero h = ap f (omega arith)
get_or-stubs_from (suc left) i f (suc v) h =
    get_or-stubs_from left (i + 1) f v (omega arith) ∙ ap f (omega arith)

isr_stubs_lem : (s : Symbols) → isr_stubs s ≡ stubs_from 32 0 s.isr
unfolding isr_stubs
isr_stubs_lem s = refl

irq_stubs_lem : (s : Symbols) → irq_stubs s ≡ stubs_from 16 0 s.irq
unfolding irq_stubs
irq_stubs_lem s = refl

-- In a table of 256 entries `idt_init` sets gates for the 32 exceptions, the 16 lines and all further
-- vectors but the last, whose entry it leaves; the halves of a gate's offset make its handler's address.
pub idt_init-gates :
    (s : Symbols) (idt : Idt) (v : ℕ) (d : IdtEntry)
    → length idt ≡ 256
    → (get_or (idt_init s idt).0 v d ≡ (
        if ltb v 32
        then gate (s.isr v)
        else if ltb v 48
        then gate (s.irq (v - 32))
        else if ltb v 255
        then gate s.default_isr
        else get_or idt v d))
      × ((a : ℕ) → target (gate a) ≡ a)
unfolding idt_init
idt_init-gates s idt v d full =
    let a = set_stubs 32 0 0 (isr_stubs s) idt in
    let b = set_stubs 16 0 32 (irq_stubs s) a in
    let la : length a ≡ 256 = length-set_stubs 32 0 0 (isr_stubs s) idt ∙ full in
    let lb : length b ≡ 256 = length-set_stubs 16 0 32 (irq_stubs s) a ∙ la in
    let ra = get_or-set_stubs 32 0 0 (isr_stubs s) idt v d full (omega arith) in
    let rb = get_or-set_stubs 16 0 32 (irq_stubs s) a v d la (omega arith) in
    let rc = get_or-set_default (255 - (32 + 16)) (32 + 16) s.default_isr b v d lb (omega arith) in
    (
      elim (Bool-cases (ltb v 32)) [
        | inl exception ↦
            let here : 0 + (v - 0) ≡ v = omega arith in
            let stub : gate (get_or (isr_stubs s) (v - 0) 0) ≡ gate (s.isr v) =
              rw (isr_stubs_lem s)
                (ap gate (get_or-stubs_from 32 0 s.isr (v - 0) (ground arith) ∙ ap s.isr here)) in
            ground arith
        | inr other ↦ elim (Bool-cases (ltb v 48)) [
          | inl line ↦
              let here : 0 + (v - 32) ≡ v - 32 = omega arith in
              let stub : gate (get_or (irq_stubs s) (v - 32) 0) ≡ gate (s.irq (v - 32)) =
                rw (irq_stubs_lem s) (
                  ap gate (get_or-stubs_from 16 0 s.irq (v - 32) (ground arith) ∙ ap s.irq here)) in
              ground arith
          | inr rest ↦ ground arith
        ]
      ],
      target-gate,
    )
