-- ===== src/Memory/Sample.antt =====
-- A small memory: 64 physical pages, of which the first eight are in use, and two pages of the kernel.
use abel_os.Base.{
  ℕ, zero, suc, ◌+◌, ◌*◌, ◌<◌, ◌≡◌, ◌≢◌, refl, Bool, true, not, ◌&&◌, ltb, ◌==◌, [], ◌∷◌, arith,
  ◌⊎◌, inl, inr, Bool-cases, if◌then◌else◌, get_or,
}
use abel_os.Pmm.{PhysicalMemoryMap, alloc_page, find_byte, find_first_zero, mark_used}
use mathlib.Core.Path.{subst, sym}
use abel_os.Base.Bits.{testbit}
use abel_os.Pmm.Pages.{AreBytes, is_used, IsMap}
use abel_os.PmmInit.{KernelImage}
use abel_os.Vmm.{kernel_page_idx, is_present, AddrSpace, read_pte}
use abel_os.Vmm.Frames.{IsEntry, frame, AreOwned, window}
use abel_os.Kalloc.{page_block}
use abel_os.Memory.{Memory}
use abel_os.Memory.Alloc.{IsMemory}
use abel_os.Memory.Supply.{Gives, HasSupply}

abbrev pub image : KernelImage
image = record { start = window; finish = 0xC040_2000; virt_start = window; phys_start = 0x4000 }

abbrev pub pages_map : PhysicalMemoryMap
pages_map = record {
  bitmap = 0xC000_0000;
  bytes = 0xff ∷ 0 ∷ 0 ∷ 0 ∷ 0 ∷ 0 ∷ 0 ∷ 0 ∷ [];
  bitmap_phy_addr = 0x6000;
  bitmap_len = 8;
  n_pages = 1;
}

abbrev pub two_pages : AddrSpace
two_pages = record {
  p_dir = λ i. if i == 0x301 then 0x3107 else 0;
  p_tables = λ i j. if i == 0x301 && ltb j 2 then 0x4107 + j * 4096 else 0;
}

pages_map-AreBytes : AreBytes (0xff ∷ 0 ∷ 0 ∷ 0 ∷ 0 ∷ 0 ∷ 0 ∷ 0 ∷ [])
pages_map-AreBytes zero = omega arith
pages_map-AreBytes (suc zero) = omega arith
pages_map-AreBytes (suc (suc zero)) = omega arith
pages_map-AreBytes (suc (suc (suc zero))) = omega arith
pages_map-AreBytes (suc (suc (suc (suc zero)))) = omega arith
pages_map-AreBytes (suc (suc (suc (suc (suc zero))))) = omega arith
pages_map-AreBytes (suc (suc (suc (suc (suc (suc zero)))))) = omega arith
pages_map-AreBytes (suc (suc (suc (suc (suc (suc (suc i))))))) = last i
  where
    last : (i : ℕ) → get_or (0 ∷ []) i 0xff < 256
    last zero = omega arith
    last (suc i) = omega arith

pages_map-IsMap : IsMap pages_map
pages_map-IsMap = record { covers = refl; fits = omega arith; are_bytes = pages_map-AreBytes }

entry-cases : (j : ℕ) → IsEntry two_pages j → (j ≡ 0) ⊎ (j ≡ 1)
unfolding read_pte
entry-cases j h = elim (Bool-cases (ltb j 2)) [
  | inr large ↦ absurd (h (rw large refl))
  | inl small ↦ elim (Bool-cases (j == 0)) [
    | inl first ↦ inl (ground arith)
    | inr other ↦ inr (ground arith)
  ]
]

-- What holds of both entries holds of each entry in use.
both : (P : ℕ → Type 0) → P 0 → P 1 → (j : ℕ) → IsEntry two_pages j → P j
both P p q j h = elim (entry-cases j h) [ inl e ↦ subst P (sym e) p | inr e ↦ subst P (sym e) q ]

pub two_pages-AreOwned : AreOwned pages_map two_pages
unfolding read_pte is_used testbit
two_pages-AreOwned = record {
  map = pages_map-IsMap;
  table = refl;
  low_unmapped = refl;
  present = both (λ j. is_present (read_pte two_pages kernel_page_idx j) ≡ true) refl refl;
  covered = both (λ j. frame two_pages j < 64) (omega arith) (omega arith);
  used = both (λ j. is_used pages_map.bytes (frame two_pages j) ≡ true) refl refl;
  apart = λ i j hi hj.
      both (λ i. i ≢ j → frame two_pages i ≢ frame two_pages j)
        (both (λ j. 0 ≢ j → frame two_pages 0 ≢ frame two_pages j) (λ ne. absurd (ne refl))
          (λ ne e. absurd (omega arith)) j hj)
        (both (λ j. 1 ≢ j → frame two_pages 1 ≢ frame two_pages j) (λ ne e. absurd (omega arith))
          (λ ne. absurd (ne refl)) j hj)
        i hi;
}

gives : ℕ → PhysicalMemoryMap → Bool
gives zero m = true
gives (suc n) m = let r = alloc_page m in not (r.0 == 0) && gives n r.1

gives-Gives : (n : ℕ) (m : PhysicalMemoryMap) → gives n m ≡ true → Gives n m
unfolding gives
gives-Gives zero m h = tt
gives-Gives (suc n) m h = (ground arith, gives-Gives n (alloc_page m).1 (ground arith))

gives_25 : gives 25 pages_map ≡ true
unfolding gives alloc_page find_byte find_first_zero mark_used
gives_25 = refl

abbrev pub memory : Memory
memory = record { map = pages_map; space = two_pages; heap = record { free = []; used = [] } }

pub memory-IsMemory : IsMemory image memory
memory-IsMemory = record {
  owned = two_pages-AreOwned;
  heap_lem = record {
    ordered = tt;
    free_blocks = tt;
    used_blocks = tt;
    used_apart = tt;
    separate = tt;
  };
  free_mapped = tt;
  used_mapped = tt;
}

pub memory-HasSupply : HasSupply 25 memory
unfolding read_pte
memory-HasSupply = (gives-Gives 25 pages_map gives_25, (2, omega arith, λ j lo hi. ground arith))

-- The same with its second page in use by the heap.
abbrev pub page_in_use : Memory
page_in_use = record memory { heap = record { free = []; used = page_block 0xC040_1000 ∷ [] } }

pub page_in_use-IsMemory : IsMemory image page_in_use
unfolding read_pte
page_in_use-IsMemory = record {
  owned = two_pages-AreOwned;
  heap_lem = record {
    ordered = tt;
    free_blocks = tt;
    used_blocks = (
      record {
        in_page = omega arith;
        low = omega arith;
        not_null = omega arith;
        even_addr = omega arith;
        even_size = omega arith;
      },
      tt,
    );
    used_apart = (tt, tt);
    separate = (tt, tt);
  };
  free_mapped = tt;
  used_mapped = (record { above = omega arith; below = omega arith; entry = omega arith }, tt);
}
