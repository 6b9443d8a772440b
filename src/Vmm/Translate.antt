-- ===== src/Vmm/Translate.antt =====
-- What mapping and unmapping a page do to the translation of addresses.
use native.Mathlib.Nat.{pow-suc}
use abel_os.Base.{
  ℕ, zero, suc, ◌*◌, ◌/◌, ◌^◌, ◌<◌, ◌≡◌, ◌∙◌, ◌≢◌, refl, Bool, true, false, not, ◌&&◌, bit_and,
  bit_or, ltb, ◌==◌, if◌then◌else◌, arith, ◌⊎◌, inl, inr, Bool-cases, ==_refl, ◌<<<◌,
}
use abel_os.Base.Bits.{
  testbit, testbit-bit_and, testbit-bit_or, testbit_ext, bit_and-lt, bit_or-lt, bit_and_digit,
  bit_or_digit, checks, checks-read,
}
use abel_os.Vmm.{
  flag_kernel, is_present, addr_to_pdi, addr_to_pti, AddrSpace, directory_idx, read_pte, write_pte,
  dealloc_page, virt_to_phys, vmm_map,
}

testbit_low : (n k q : ℕ) → k < n → testbit k (q <<< n) ≡ false
unfolding testbit
testbit_low zero k q h = absurd (omega arith)
testbit_low (suc n) zero q h =
    let twice : q <<< suc n ≡ (q <<< n) * 2 = rw (pow-suc 2 n) (omega arith) in ground arith
testbit_low (suc n) (suc k) q h =
    let twice : q <<< suc n ≡ (q <<< n) * 2 = rw (pow-suc 2 n) (omega arith) in
    let half : (q <<< suc n) / 2 ≡ q <<< n = omega arith in
    rw half (testbit_low n k q (omega arith))

-- The mask clears the twelve low bits, and the flags are among these.
abbrev splits : ℕ → Bool
unfolding testbit
splits k =
    if ltb k 12
    then not (testbit k 0xffff_f000)
    else testbit k 0xffff_f000 && not (testbit k flag_kernel)

splits_all : checks 32 splits ≡ true
unfolding checks testbit
splits_all = refl

-- The mask takes a page's address back out of an entry.
pub address_of_entry :
    (q : ℕ) → q * 4096 < 2 ^ 32 → bit_and (bit_or (q * 4096) flag_kernel) 0xffff_f000 ≡ q * 4096
unfolding splits
address_of_entry q h =
    testbit_ext 32 _ _ (bit_and-lt 32 _ _ (bit_or-lt 32 _ _ h (omega arith)) (omega arith)) h
      (λ k lt.
        let table : (if ltb k 12
              then not (testbit k 0xffff_f000)
              else testbit k 0xffff_f000 && not (testbit k flag_kernel))
            ≡ true =
          checks-read splits 32 k lt splits_all in
        let low = testbit_low 12 k q in
        rw (testbit-bit_and k _ _, testbit-bit_or k _ _) (ground arith))

pub is_present-flags : (p : ℕ) → is_present (bit_or p flag_kernel) ≡ true
is_present-flags p =
    ground (arith, bit_or_digit p flag_kernel, bit_and_digit (bit_or p flag_kernel) 1)

-- Whether two addresses have the same entry.
abbrev pub same_entry : ℕ → ℕ → Bool
same_entry v w = addr_to_pdi v == addr_to_pdi w && (addr_to_pti v == addr_to_pti w)

-- Such addresses translate alike.
virt_to_phys_same :
    (w v : ℕ) (a : AddrSpace) → same_entry w v ≡ true → virt_to_phys w a ≡ virt_to_phys v a
unfolding virt_to_phys
virt_to_phys_same w v a h =
    let pdi : addr_to_pdi w ≡ addr_to_pdi v = ground arith in
    let pti : addr_to_pti w ≡ addr_to_pti v = ground arith in rw (pdi, pti)

pub read_pte-write_pte :
    (i j v : ℕ) (a : AddrSpace) (k l : ℕ)
    → read_pte (write_pte i j v a) k l ≡ (if k == i && (l == j) then v else read_pte a k l)
unfolding read_pte write_pte
read_pte-write_pte i j v a k l = ground arith

pub p_dir-write_pte :
    (i j v : ℕ) (a : AddrSpace) (k : ℕ)
    → i ≢ directory_idx
    → (write_pte i j v a).p_dir k ≡ a.p_dir k
unfolding write_pte
p_dir-write_pte i j v a k h = let other : (i == directory_idx) ≡ false = ground arith in rw other

module _ (v : ℕ) (q : ℕ) (a : AddrSpace) (small : q * 4096 < 2 ^ 32)
    (below : addr_to_pdi v ≢ directory_idx) (table : is_present (a.p_dir (addr_to_pdi v)) ≡ true)
    (unused : is_present (read_pte a (addr_to_pdi v) (addr_to_pti v)) ≡ false) where
  mapped :
      vmm_map v (q * 4096) a
      ≡ write_pte (addr_to_pdi v) (addr_to_pti v) (bit_or (q * 4096) flag_kernel) a
  unfolding vmm_map
  mapped = rw (table, unused)

  virt_to_phys-mapped : virt_to_phys v (vmm_map v (q * 4096) a) ≡ q * 4096
  unfolding virt_to_phys
  virt_to_phys-mapped = rw mapped (
      rw
        (
          p_dir-write_pte (addr_to_pdi v) (addr_to_pti v) (bit_or (q * 4096) flag_kernel) a
              (addr_to_pdi v) below,
          read_pte-write_pte (addr_to_pdi v) (addr_to_pti v) (bit_or (q * 4096) flag_kernel) a
              (addr_to_pdi v) (addr_to_pti v),
          ==_refl (addr_to_pdi v),
          ==_refl (addr_to_pti v),
          table,
          is_present-flags (q * 4096),
        )
        (address_of_entry q small))

  virt_to_phys_other :
      (w : ℕ) → same_entry w v ≡ false → virt_to_phys w (vmm_map v (q * 4096) a) ≡ virt_to_phys w a
  unfolding virt_to_phys
  virt_to_phys_other w h = rw mapped (
      rw (
        p_dir-write_pte (addr_to_pdi v) (addr_to_pti v) (bit_or (q * 4096) flag_kernel) a
            (addr_to_pdi w) below,
        read_pte-write_pte (addr_to_pdi v) (addr_to_pti v) (bit_or (q * 4096) flag_kernel) a
            (addr_to_pdi w) (addr_to_pti w),
        h,
      ))

-- Mapping a physical page below 4 GiB at an address that is below the directory's window, has a page
-- table and an entry not in use, makes every address of that page translate to the physical page,
-- and leaves the translation of all others.
pub virt_to_phys-vmm_map :
    (v q : ℕ) (a : AddrSpace)
    → q * 4096 < 2 ^ 32
    → addr_to_pdi v ≢ directory_idx
    → is_present (a.p_dir (addr_to_pdi v)) ≡ true
    → is_present (read_pte a (addr_to_pdi v) (addr_to_pti v)) ≡ false
    → (w : ℕ)
    → virt_to_phys w (vmm_map v (q * 4096) a)
      ≡ (if same_entry w v then q * 4096 else virt_to_phys w a)
virt_to_phys-vmm_map v q a small below table unused w = elim (Bool-cases (same_entry w v)) [
  | inl same ↦ rw same (
      virt_to_phys_same w v (vmm_map v (q * 4096) a) same
      ∙ virt_to_phys-mapped v q a small below table unused)
  | inr other ↦ rw other (virt_to_phys_other v q a small below table unused w other)
]

-- Mapping at an address without a page table, or whose entry is in use, changes nothing.
pub vmm_map-refused :
    (v p : ℕ) (a : AddrSpace)
    → (is_present (a.p_dir (addr_to_pdi v)) ≡ false)
      ⊎ (is_present (read_pte a (addr_to_pdi v) (addr_to_pti v)) ≡ true)
    → vmm_map v p a ≡ a
unfolding vmm_map
vmm_map-refused v p a h = ground arith

dealloc_here :
    (v : ℕ) (a : AddrSpace) → addr_to_pdi v ≢ directory_idx → virt_to_phys v (dealloc_page v a) ≡ 0
unfolding virt_to_phys dealloc_page
dealloc_here v a below = elim (Bool-cases (is_present (a.p_dir (addr_to_pdi v)))) [
  | inr no_table ↦ rw (no_table, no_table)
  | inl table ↦ rw table (
      rw (
        p_dir-write_pte (addr_to_pdi v) (addr_to_pti v) 0 a (addr_to_pdi v) below,
        read_pte-write_pte (addr_to_pdi v) (addr_to_pti v) 0 a (addr_to_pdi v) (addr_to_pti v),
        ==_refl (addr_to_pdi v),
        ==_refl (addr_to_pti v),
        table,
      ))
]

dealloc_there :
    (v : ℕ) (a : AddrSpace)
    → addr_to_pdi v ≢ directory_idx
    → (w : ℕ) → same_entry w v ≡ false
    → virt_to_phys w (dealloc_page v a) ≡ virt_to_phys w a
unfolding virt_to_phys dealloc_page
dealloc_there v a below w h = elim (Bool-cases (is_present (a.p_dir (addr_to_pdi v)))) [
  | inr no_table ↦ rw no_table
  | inl table ↦ rw table (
      rw (
        p_dir-write_pte (addr_to_pdi v) (addr_to_pti v) 0 a (addr_to_pdi w) below,
        read_pte-write_pte (addr_to_pdi v) (addr_to_pti v) 0 a (addr_to_pdi w) (addr_to_pti w),
        h,
      ))
]

-- After `arch_vmm_dealloc_page` on an address below the directory's window no address of its page
-- translates any more, and all others translate as before.
pub virt_to_phys-dealloc_page :
    (v : ℕ) (a : AddrSpace)
    → addr_to_pdi v ≢ directory_idx
    → (w : ℕ) → virt_to_phys w (dealloc_page v a) ≡ (if same_entry w v then 0 else virt_to_phys w a)
virt_to_phys-dealloc_page v a below w = elim (Bool-cases (same_entry w v)) [
  | inl same ↦ rw same (virt_to_phys_same w v (dealloc_page v a) same ∙ dealloc_here v a below)
  | inr other ↦ rw other (dealloc_there v a below w other)
]
