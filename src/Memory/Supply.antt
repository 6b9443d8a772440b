-- ===== src/Memory/Supply.antt =====
-- Memory with pages to give: calls of `kalloc` that cannot fault.
use abel_os.Base.{
  ℕ, zero, suc, ◌+◌, ◌≤◌, ◌<◌, ◌≡◌, ◌≢◌, refl, ◌∙◌, ◌∷◌, ltb, arith, inl, inr, Bool-cases, ◌==◌,
  Option, none, some,
}
use mathlib.Core.Path.{subst, sym}
use abel_os.Pmm.{PhysicalMemoryMap, alloc_page}
use abel_os.PmmInit.{KernelImage}
use abel_os.Vmm.{n_entries, kernel_page_idx, AddrSpace, read_pte}
use abel_os.Vmm.Frames.{IsEntry, window}
use abel_os.Kalloc.{Block, place}
use abel_os.Memory.{Memory, with_page, kalloc_pages}
use abel_os.Memory.Alloc.{IsMemory, Granted, IsFresh, with_page-IsFresh}
use abel_os.Memory.Leaves.{Leaves, with_first, kalloc_pages-Leaves}
use abel_os.Memory.Kalloc.{first-IsMemory, with_page-map, kalloc_pages-Granted}

-- `pmm_alloc_page` can be called so many times.
abbrev pub Gives : ℕ → PhysicalMemoryMap → Type 0
Gives zero m = Unit {0}
Gives (suc n) m = ((alloc_page m).0 ≢ 0) × Gives n (alloc_page m).1

-- So many entries of the kernel's table are null, in a row.
abbrev pub HasRoom : ℕ → AddrSpace → Type 0
HasRoom n a =
    (i : ℕ) × (i + n ≤ n_entries) × ((j : ℕ) → i ≤ j → j < i + n → read_pte a kernel_page_idx j ≡ 0)

abbrev pub HasSupply : ℕ → Memory → Type 0
HasSupply n s = Gives n s.map × HasRoom n s.space

Gives-less : (n : ℕ) (m : PhysicalMemoryMap) → Gives (suc n) m → Gives n m
Gives-less zero m g = tt
Gives-less (suc n) m g = (g.0, Gives-less n (alloc_page m).1 g.1)

pub HasSupply-less : (n : ℕ) (s : Memory) → HasSupply (suc n) s → HasSupply n s
HasSupply-less n s (g, (i, fits, free)) =
    (Gives-less n s.map g, (i, omega arith, λ j lo hi. free j lo (omega arith)))

-- A page taken from a supply.
pub with_page-HasSupply :
    (k : KernelImage) (n : ℕ) (s : Memory)
    → k.virt_start ≡ window
    → IsMemory k s
    → HasSupply (suc n) s
    → IsFresh k s (with_page k s).0 (with_page k s).1 × HasSupply n (with_page k s).1
with_page-HasSupply k n s at v (g, (i, fits, free)) = elim (with_page-IsFresh k s at v g.0) [
  | inl (no_addr, full) ↦ absurd (full i (omega arith) (free i (omega arith) (omega arith)))
  | inr w ↦
      let (l, place, unused, entry, before, others) = w.others in
      let le : l ≤ i = elim (Bool-cases (ltb i l)) [
        | inl low ↦ absurd (before i (ground arith) (free i (omega arith) (omega arith)))
        | inr high ↦ ground arith
      ] in
      (
        w,
        (
          rw (with_page-map k s) g.1,
          (
            i + 1,
            omega arith,
            λ j lo hi. others j (λ e. absurd (omega arith)) ∙ free j (omega arith) (omega arith),
          ),
        ),
      )
]

-- The entries in use stay in use.
abbrev pub KeepsEntries : AddrSpace → AddrSpace → Type 0
KeepsEntries a b = (j : ℕ) → IsEntry a j → IsEntry b j

pub IsFresh-KeepsEntries :
    (k : KernelImage) (s : Memory) (p : ℕ) (t : Memory)
    → IsFresh k s p t
    → KeepsEntries s.space t.space
IsFresh-KeepsEntries k s p t w j used =
    let (i, addr, unused, entry, before, others) = w.others in
    elim (Bool-cases (j == i)) [
      | inl same ↦ let e : j ≡ i = ground arith in subst (IsEntry t.space) (sym e) entry
      | inr other ↦ let ne : j ≢ i = ground arith in λ gone. used (sym (others j ne) ∙ gone)
    ]

-- What an allocation leaves: the supply but for two pages, and all entries in use.
abbrev pub LeavesSupply : ℕ → AddrSpace → Option (ℕ × Memory) → Type 0
LeavesSupply n a r = Leaves (λ t. HasSupply n t × KeepsEntries a t.space) r

kalloc_pages-LeavesSupply :
    (k : KernelImage) (n size : ℕ) (s : Memory)
    → k.virt_start ≡ window
    → IsMemory k s
    → HasSupply (suc (suc n)) s
    → LeavesSupply n s.space (kalloc_pages k size s)
kalloc_pages-LeavesSupply k n size s at v g =
    let (w, g1) = with_page-HasSupply k (suc n) s at v g in
    let (w2, g2) = with_page-HasSupply k n (with_first k s) at (first-IsMemory k s v w) g1 in
    let kept = IsFresh-KeepsEntries k s _ _ w in
    let kept2 = IsFresh-KeepsEntries k (with_first k s) _ _ w2 in
    kalloc_pages-Leaves (λ t. HasSupply n t × KeepsEntries s.space t.space) (λ u h l. l) k size s
      (HasSupply-less n s (HasSupply-less (suc n) s g), λ j used. used)
      (HasSupply-less n (with_page k s).1 g1, kept) (g2, λ j used. kept2 j (kept j used))

-- For a kernel whose pages start at 0xC0400000 and memory that satisfies its invariant, of which two
-- pages more can be taken: a request of at most 4088 bytes is granted, all but two of the pages can
-- still be taken, and the entries in use stay in use.
pub kalloc_pages-supplied :
    (k : KernelImage) (n size : ℕ) (s : Memory)
    → k.virt_start ≡ window
    → IsMemory k s
    → HasSupply (n + 2) s
    → size ≤ 4088
    → Granted k size s (kalloc_pages k size s) × LeavesSupply n s.space (kalloc_pages k size s)
kalloc_pages-supplied k n size s at v g small =
    let (gives, (i, fits, free)) : HasSupply (suc (suc n)) s =
      subst (λ i. HasSupply i s) (omega arith) g in
    (
      elim (kalloc_pages-Granted k size s at v (gives.0, gives.1.0) (omega arith)) [
        | inl (much, e) ↦ absurd (omega arith)
        | inr (fine, inl granted) ↦ granted
        | inr (fine, inr (stuck, scarce)) ↦
            let same =
              scarce i (i + 1) (omega arith) (omega arith) (free i (omega arith) (omega arith))
                (free (i + 1) (omega arith) (omega arith)) in
            absurd (omega arith)
      ],
      kalloc_pages-LeavesSupply k n size s at v (gives, (i, fits, free)),
    )

supplied_block :
    (k : KernelImage) (n size : ℕ) (s : Memory) (r : Option (ℕ × Memory))
    → Granted k size s r
    → LeavesSupply n s.space r
    → (p : ℕ) × (t : Memory) × (b : Block) × (r ≡ some (p, t))
      × IsMemory k t
      × HasSupply n t
      × KeepsEntries s.space t.space
      × (t.heap.used ≡ b ∷ s.heap.used)
      × (p ≡ b.addr + 8)
supplied_block k n size s none g l = absurd g
supplied_block k n size s (some (p, t)) (v, (b, used, ptr, big)) l =
    (p, t, b, refl, v, l.0, l.1, used, ptr)

-- The same, with the results named.
pub kalloc_pages-some :
    (k : KernelImage) (n size : ℕ) (s : Memory)
    → k.virt_start ≡ window
    → IsMemory k s
    → HasSupply (n + 2) s
    → size ≤ 4088
    → (p : ℕ) × (t : Memory) × (b : Block) × (kalloc_pages k size s ≡ some (p, t))
      × IsMemory k t
      × HasSupply n t
      × KeepsEntries s.space t.space
      × (t.heap.used ≡ b ∷ s.heap.used)
      × (p ≡ b.addr + 8)
kalloc_pages-some k n size s at v g small =
    let (granted, left) = kalloc_pages-supplied k n size s at v g small in
    supplied_block k n size s (kalloc_pages k size s) granted left
