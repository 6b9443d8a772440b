-- ===== src/Vmm/Owned.antt =====
-- No two pages of the kernel's table share a physical page, whatever is allocated and freed.
use abel_os.Base.{
  ℕ, ◌*◌, ◌/◌, ◌^◌, ◌<◌, ◌≡◌, ◌≢◌, refl, sym, ap, ◌∙◌, bit_and, bit_or, true, false, ◌||◌, ◌==◌,
  if◌then◌else◌, arith, ◌⊎◌, inl, inr, Bool-cases,
}
use abel_os.Pmm.{PhysicalMemoryMap}
use abel_os.Pmm.Pages.{is_used, IsMap}
use abel_os.Vmm.{kernel_page_idx, flag_kernel, is_present, AddrSpace, read_pte, write_pte}
use abel_os.Vmm.Translate.{read_pte-write_pte, p_dir-write_pte, is_present-flags, address_of_entry}
use abel_os.Vmm.Frames.{frame, IsEntry, AreOwned}

-- The tables with an entry for a page added, and with an entry cleared.
abbrev pub added : AddrSpace → ℕ → ℕ → AddrSpace
added a i page = write_pte kernel_page_idx i (bit_or (page * 4096) flag_kernel) a

abbrev pub cleared : AddrSpace → ℕ → AddrSpace
cleared a i = write_pte kernel_page_idx i 0 a

-- What one entry of the kernel's table is after a write to entry `i`.
pub entry-write_pte :
    (i e : ℕ) (a : AddrSpace) (j : ℕ)
    → ((j ≡ i) × (read_pte (write_pte kernel_page_idx i e a) kernel_page_idx j ≡ e))
      ⊎ ((j ≢ i)
          × (read_pte (write_pte kernel_page_idx i e a) kernel_page_idx j
              ≡ read_pte a kernel_page_idx j))
entry-write_pte i e a j =
    let at = read_pte-write_pte kernel_page_idx i e a kernel_page_idx j in
    elim (Bool-cases (j == i)) [
      | inl same ↦ inl (ground arith, ground arith)
      | inr other ↦ inr (ground arith, ground arith)
    ]

pub frame-added :
    (a : AddrSpace) (i page j : ℕ)
    → page * 4096 < 2 ^ 32
    → ((j ≡ i)
        × (frame (added a i page) j ≡ page)
        × (is_present (read_pte (added a i page) kernel_page_idx j) ≡ true))
      ⊎ ((j ≢ i) × (read_pte (added a i page) kernel_page_idx j ≡ read_pte a kernel_page_idx j))
frame-added a i page j small = elim (entry-write_pte i (bit_or (page * 4096) flag_kernel) a j) [
  | inr other ↦ inr other
  | inl (same, e) ↦
      inl (
        same,
        rw (e, address_of_entry page small) omega arith,
        rw e (is_present-flags (page * 4096)),
      )
]

-- The new entry, and the others.
pub added-here :
    (a : AddrSpace) (i page : ℕ)
    → page * 4096 < 2 ^ 32
    → (frame (added a i page) i ≡ page)
      × (is_present (read_pte (added a i page) kernel_page_idx i) ≡ true)
added-here a i page small = elim (frame-added a i page i small) [
  | inl (same, at, there) ↦ (at, there)
  | inr (ne, e) ↦ absurd (ne refl)
]

pub there-write_pte :
    (i e : ℕ) (a : AddrSpace) (j : ℕ)
    → j ≢ i
    → read_pte (write_pte kernel_page_idx i e a) kernel_page_idx j ≡ read_pte a kernel_page_idx j
there-write_pte i e a j ne = elim (entry-write_pte i e a j) [
  | inl (same, at) ↦ absurd (ne same)
  | inr (other, at) ↦ at
]

module _ (m m' : PhysicalMemoryMap) (a : AddrSpace) (i : ℕ) (v : AreOwned m a) (v' : IsMap m')
    (same_len : m'.bitmap_len ≡ m.bitmap_len) where
  module _ (page : ℕ) (covered : page < 8 * m.bitmap_len) (free : is_used m.bytes page ≡ false)
      (marked : (p : ℕ) → is_used m'.bytes p ≡ ((p == page) || is_used m.bytes p)) where
    small : page * 4096 < 2 ^ 32
    small = omega (arith, v.map.fits)

    owned_page : (j : ℕ) → IsEntry a j → frame a j ≢ page
    owned_page j entry h = let u = v.used j entry in let u' = rw h at u in cc

    kept :
        (j : ℕ) (e : read_pte (added a i page) kernel_page_idx j ≡ read_pte a kernel_page_idx j)
        → frame (added a i page) j ≡ frame a j
    kept j e = ap (λ x. bit_and x 0xffff_f000 / 4096) e

    pub added-AreOwned : AreOwned m' (added a i page)
    added-AreOwned = record {
      map = v';
      table =
          rw
            (p_dir-write_pte kernel_page_idx i (bit_or (page * 4096) flag_kernel) a kernel_page_idx
              (λ h. absurd (omega arith)))
            v.table;
      low_unmapped =
          rw
            (p_dir-write_pte kernel_page_idx i (bit_or (page * 4096) flag_kernel) a 0
              (λ h. absurd (omega arith)))
            v.low_unmapped;
      present = λ j entry. elim (frame-added a i page j small) [
        | inl (same, at, there) ↦ there
        | inr (ne, e) ↦ rw e (v.present j (λ h. entry (e ∙ h)))
      ];
      covered = λ j entry. elim (frame-added a i page j small) [
        | inl (same, at, there) ↦ omega arith
        | inr (ne, e) ↦ let old = v.covered j (λ h. entry (e ∙ h)) in rw (e, same_len) old
      ];
      used = λ j entry. elim (frame-added a i page j small) [
        | inl (same, at, there) ↦ rw at (ground (arith, marked page))
        | inr (ne, e) ↦ rw e (ground (arith, marked (frame a j), v.used j (λ h. entry (e ∙ h))))
      ];
      apart = λ j k entry entry' differ both. elim (frame-added a i page j small) [
        | inl (same, at, there) ↦ elim (frame-added a i page k small) [
          | inl (same', at', there') ↦ differ (same ∙ sym same')
          | inr (ne, e) ↦ owned_page k (λ h. entry' (e ∙ h)) (sym (kept k e) ∙ sym both ∙ at)
        ]
        | inr (ne, e) ↦ elim (frame-added a i page k small) [
          | inl (same', at', there') ↦
              owned_page j (λ h. entry (e ∙ h)) (sym (kept j e) ∙ both ∙ at')
          | inr (ne', e') ↦
              v.apart j k (λ h. entry (e ∙ h)) (λ h. entry' (e' ∙ h)) differ
                (sym (kept j e) ∙ both ∙ kept k e')
        ]
      ];
    }

  module _ (entry_i : IsEntry a i)
      (freed : (p : ℕ)
        → is_used m'.bytes p ≡ (if p == frame a i then false else is_used m.bytes p)) where
    cleared-kept :
        (j : ℕ)
        → IsEntry (cleared a i) j
        → (j ≢ i)
          × IsEntry a j
          × (read_pte (cleared a i) kernel_page_idx j ≡ read_pte a kernel_page_idx j)
          × (frame (cleared a i) j ≡ frame a j)
    cleared-kept j entry = elim (entry-write_pte i 0 a j) [
      | inl (same, e) ↦ absurd (entry e)
      | inr (ne, e) ↦ (ne, (λ h. entry (e ∙ h)), e, ap (λ x. bit_and x 0xffff_f000 / 4096) e)
    ]

    pub cleared-AreOwned : AreOwned m' (cleared a i)
    cleared-AreOwned = record {
      map = v';
      table =
          rw (p_dir-write_pte kernel_page_idx i 0 a kernel_page_idx (λ h. absurd (omega arith)))
            v.table;
      low_unmapped =
          rw (p_dir-write_pte kernel_page_idx i 0 a 0 (λ h. absurd (omega arith))) v.low_unmapped;
      present = λ j entry. let (ne, old, e, at) = cleared-kept j entry in rw e (v.present j old);
      covered = λ j entry.
          let (ne, old, e, at) = cleared-kept j entry in rw (at, same_len) (v.covered j old);
      used = λ j entry.
          let (ne, old, e, at) = cleared-kept j entry in
          let other : frame a j ≢ frame a i = v.apart j i old entry_i ne in
          rw at (ground (arith, freed (frame a j), v.used j old));
      apart = λ j k entry entry' differ both.
          let (ne, old, e, at) = cleared-kept j entry in
          let (ne', old', e', at') = cleared-kept k entry' in
          v.apart j k old old' differ (sym at ∙ both ∙ at');
    }

-- An owner of pages stays one when the allocator counts more pages as used.
pub more-AreOwned :
    (m m' : PhysicalMemoryMap) (a : AddrSpace)
    → AreOwned m a
    → IsMap m'
    → m'.bitmap_len ≡ m.bitmap_len
    → ((p : ℕ) → is_used m.bytes p ≡ true → is_used m'.bytes p ≡ true)
    → AreOwned m' a
more-AreOwned m m' a v v' same_len more = record {
  map = v';
  table = v.table;
  low_unmapped = v.low_unmapped;
  present = v.present;
  covered = λ j entry. rw same_len (v.covered j entry);
  used = λ j entry. more (frame a j) (v.used j entry);
  apart = v.apart;
}
