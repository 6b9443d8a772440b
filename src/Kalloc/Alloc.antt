-- ===== src/Kalloc/Alloc.antt =====
-- `kalloc` on a heap, whatever pages the virtual memory has to give.
use abel_os.Base.{
  ◌-◌, ◌⊎◌, if◌then◌else◌, ℕ, ◌+◌, ◌≤◌, ◌<◌, ◌%◌, ◌^◌, ◌≡◌, refl, true, false, [], ◌∷◌, Option,
  none, some, ltb, ◌==◌, arith, inl, inr, Bool-cases, u32,
}
use mathlib.Core.Path.{subst}
use abel_os.Kalloc.{
  Block, Blocks, Heap, page_block, normalize, find_fit, place, null, fault, carve, search_free,
  is_nil, kalloc,
}
use abel_os.Kalloc.Blocks.{Apart, Apart-sym, Separate, IsHeap, IsNewPage}
use abel_os.Kalloc.Place.{IsHeap-place, Fits, find_fit-Fits}
use abel_os.Kalloc.Carve.{heap, Grants, carve-Grants}

search_free-Grants :
    (asked n extra : ℕ) (h0 h : Heap)
    → IsHeap h
    → IsNewPage extra h
    → h0.used ≡ h.used
    → n % 2 ≡ 0
    → n + 8 ≤ 4096
    → 0 < n
    → asked ≤ n
    → n ≤ asked + 16
    → Grants asked h0 (search_free n (n + 8) extra h)
unfolding search_free
search_free-Grants asked n extra h0 h v new same even small pos lo hi =
    take (find_fit (n + 8) h.free) (find_fit-Fits (n + 8) h.free)
  where
    take :
        (r : Option (Blocks × Block × Blocks))
        → Fits (n + 8) h.free r
        → Grants asked h0 (elim r [
          | some (before, b, after) ↦ carve n (n + 8) before b after h.used
          | none ↦
              if extra == 0
              then fault
              else let (before, after) = place extra h.free in
                carve n (n + 8) before (page_block extra) after h.used
        ])
    take (some (before, b, after)) f =
        carve-Grants asked n before b after h.used h0 (subst (λ l. IsHeap (heap l h.used)) f.0 v)
          same even (omega (arith, f.1)) small pos lo hi
    take none f =
        let mapped : (extra == 0) ≡ false = let pos = new.page_lem.not_null in ground arith in
        rw mapped (
          carve-Grants asked n (place extra h.free).0 (page_block extra) (place extra h.free).1
            h.used h0
            (IsHeap-place (page_block extra) h.free h.used new.page_lem new.not_free new.not_used v)
            same even (omega arith) small pos lo hi)

-- The tests before the search, for a size that the increment does not wrap around.
pub normalize_lem :
    (n : ℕ)
    → n + 10 ≤ 2 ^ 32
    → (normalize n % 2 ≡ 0)
      × (0 < normalize n)
      × (n ≤ normalize n)
      × (normalize n ≤ n + 16)
      × (normalize n < 2 ^ 32 - 8)
      × (ltb 4096 (normalize n + 8) ≡ ltb 4088 n)
unfolding normalize
normalize_lem n h =
    (ground arith, ground arith, ground arith, ground arith, ground arith, ground arith)

Separate-nil : (us : Blocks) → Separate us []
Separate-nil [] = tt
Separate-nil (u ∷ us) = (tt, Separate-nil us)

pub empty : (free : Blocks) → is_nil free ≡ true → free ≡ []
empty [] h = refl
empty (b ∷ bs) h = cc

-- A heap whose free list is a new page.
pub first-IsHeap :
    (first : ℕ) (h : Heap)
    → IsHeap h
    → IsNewPage first h
    → IsHeap (heap (page_block first ∷ []) h.used)
unfolding place
first-IsHeap first h v new =
    IsHeap-place (page_block first) [] h.used new.page_lem tt new.not_used (record {
      ordered = tt;
      free_blocks = tt;
      used_blocks = v.used_blocks;
      used_apart = v.used_apart;
      separate = Separate-nil h.used;
    })

-- On a heap that satisfies the invariant, with two new pages apart from each other and a size that does
-- not wrap around: a request of more than 4088 bytes is answered with the null pointer, and any other
-- with a block.
pub kalloc-Grants :
    (h : Heap) (first extra n : ℕ)
    → IsHeap h
    → IsNewPage first h
    → IsNewPage extra h
    → Apart (page_block first) (page_block extra)
    → n + 10 ≤ 2 ^ 32
    → ((4088 < n) × (kalloc first extra n h ≡ null))
      ⊎ ((n ≤ 4088) × Grants n h (kalloc first extra n h))
unfolding kalloc
kalloc-Grants h first extra n v new1 new2 apart fits =
    let (even, pos, lo, hi, low, limit) = normalize_lem n fits in
    let plain : u32 (normalize n + 8) ≡ normalize n + 8 = omega arith in
    elim (Bool-cases (ltb 4088 n)) [
      | inl much ↦ rw (plain, limit, much) (inl (ground arith, refl))
      | inr fine ↦
          let small : normalize n + 8 ≤ 4096 = ground arith in
          elim (Bool-cases (is_nil h.free)) [
            | inl none_left ↦
                let mapped : (first == 0) ≡ false =
                  let pos = new1.page_lem.not_null in ground arith in
                rw (plain, limit, fine, none_left, mapped)
                  (inr (
                    ground arith,
                    search_free-Grants n (normalize n) extra h (heap (page_block first ∷ []) h.used)
                        (first-IsHeap first h v new1)
                        (record {
                          page_lem = new2.page_lem;
                          not_free = (Apart-sym (page_block first) (page_block extra) apart, tt);
                          not_used = new2.not_used;
                        })
                        refl even small pos lo hi,
                  ))
            | inr some_left ↦
                rw (plain, limit, fine, some_left)
                  (inr (
                    ground arith,
                    search_free-Grants n (normalize n) extra h h v new2 refl even small pos lo hi,
                  ))
          ]
    ]
