-- ===== src/Vmm/Core.antt =====
-- Mapping of physical ranges for the kernel: `arch_vmm_map_core`.
use abel_os.Base.{
  ℕ, zero, suc, ◌+◌, ◌-◌, ◌*◌, ◌/◌, ◌≤◌, ◌<◌, ◌≡◌, refl, bit_or, true, false, ◌&&◌, ltb, leb, ◌==◌,
  if◌then◌else◌, arith, ◌⊎◌, inl, inr, Bool-cases, ==_iff, ap, u32,
}
use abel_os.Vmm.{
  n_entries, io_page_idx, flag_kernel, is_present, AddrSpace, read_pte, write_pte, find_run,
  map_run, map_core,
}
use abel_os.Vmm.Translate.{read_pte-write_pte}

-- Where the search stops: behind `found` unused entries in a row.
abbrev StopsBehind : AddrSpace → ℕ → ℕ × ℕ → Type 0
StopsBehind a n (r, found) =
    (found ≤ r)
    × (r ≤ n_entries)
    × ((k : ℕ) → r ≤ k + found → k < r → is_present (read_pte a io_page_idx k) ≡ false)

find_run-StopsBehind :
    (a : AddrSpace) (n left i found : ℕ)
    → i + left ≡ n_entries
    → found ≤ i
    → ((k : ℕ) → i ≤ k + found → k < i → is_present (read_pte a io_page_idx k) ≡ false)
    → StopsBehind a n (find_run a n left i found)
unfolding find_run
find_run-StopsBehind a n zero i found e le unused = (le, omega arith, unused)
find_run-StopsBehind a n (suc left) i found e le unused = elim (Bool-cases (ltb found n)) [
  | inr enough ↦ rw enough (le, omega arith, unused)
  | inl more ↦ elim (Bool-cases (is_present (read_pte a io_page_idx i))) [
    | inl used ↦
        rw (more, used)
          (find_run-StopsBehind a n left (i + 1) 0 (omega arith) (omega arith)
            (λ k lo hi. absurd (omega arith)))
    | inr free ↦
        rw (more, free)
          (find_run-StopsBehind a n left (i + 1) (found + 1) (omega arith) (omega arith) (λ k lo hi.
            elim (Bool-cases (k == i)) [
              | inl same ↦ let e' : k ≡ i = ground arith in rw e' free
              | inr other ↦ let ne : k < i = ground arith in unused k (omega arith) ne
            ]))
  ]
]

abbrev pub AllUnused : AddrSpace → (s end : ℕ) → Type 0
AllUnused a s end = (k : ℕ) → s ≤ k → k < end → is_present (read_pte a io_page_idx k) ≡ false

-- Below `end` no `n` entries in a row are unused.
abbrev pub NoRun : AddrSpace → (n end : ℕ) → Type 0
NoRun a n end = (s : ℕ) → s + n ≤ end → AllUnused a s (s + n) → ⊥

-- The entry in front of the row that was counted is in use.
abbrev IsMaximal : AddrSpace → (i found : ℕ) → Type 0
IsMaximal a i found = found < i → is_present (read_pte a io_page_idx (i - suc found)) ≡ true

NoRun-used :
    (a : AddrSpace) (n i : ℕ)
    → 0 < n
    → NoRun a n i
    → is_present (read_pte a io_page_idx i) ≡ true
    → NoRun a n (i + 1)
NoRun-used a n i pos none_yet used s fits free = elim (Bool-cases (leb (s + n) i)) [
  | inl below ↦ none_yet s (ground arith) free
  | inr last ↦ let e = free i (ground arith) (ground arith) in cc
]

NoRun-unused :
    (a : AddrSpace) (n i found : ℕ)
    → found + 1 < n
    → NoRun a n i
    → IsMaximal a i found
    → NoRun a n (i + 1)
NoRun-unused a n i found few none_yet max s fits free = elim (Bool-cases (leb (s + n) i)) [
  | inl below ↦ none_yet s (ground arith) free
  | inr last ↦
      let e = free (i - suc found) (ground arith) (ground arith) in
      let used = max (ground arith) in cc
]

find_run-NoRun :
    (a : AddrSpace) (n left i found : ℕ)
    → i + left ≡ n_entries
    → found ≤ n
    → ((found < n) → NoRun a n i)
    → IsMaximal a i found
    → ((find_run a n left i found).1 ≡ n) ⊎ NoRun a n n_entries
unfolding find_run
find_run-NoRun a n zero i found e le none_yet max = elim (Bool-cases (ltb found n)) [
  | inl few ↦
      let at_end : i ≡ n_entries = omega arith in inr (rw at_end at (none_yet (ground arith)))
  | inr enough ↦ inl (ground arith)
]
find_run-NoRun a n (suc left) i found e le none_yet max = elim (Bool-cases (ltb found n)) [
  | inr enough ↦ rw enough (inl (ground arith))
  | inl more ↦
      let few : found < n = ground arith in
      elim (Bool-cases (is_present (read_pte a io_page_idx i))) [
        | inl used ↦
            let here : i + 1 - 1 ≡ i = omega arith in
            rw (more, used)
              (find_run-NoRun a n left (i + 1) 0 (omega arith) (omega arith)
                (λ lt. NoRun-used a n i lt (none_yet few) used) (λ lt. rw here used))
        | inr free ↦
            let here : i + 1 - suc (found + 1) ≡ i - suc found = omega arith in
            rw (more, free)
              (find_run-NoRun a n left (i + 1) (found + 1) (omega arith) (omega arith)
                (λ lt. NoRun-unused a n i found lt (none_yet few) max)
                (λ lt. rw here (max (omega arith))))
      ]
]

read_pte-map_run :
    (base i left j : ℕ) (a : AddrSpace) (t k : ℕ)
    → read_pte (map_run base i left j a) t k ≡ (
        if t == io_page_idx && leb (i + j) k && ltb k (i + j + left)
        then bit_or (u32 (base + (k - i) * 4096)) flag_kernel
        else read_pte a t k)
unfolding map_run
read_pte-map_run base i zero j a t k = ground arith
read_pte-map_run base i (suc left) j a t k =
    let e = bit_or (u32 (base + j * 4096)) flag_kernel in
    let ih = read_pte-map_run base i left (j + 1) (write_pte io_page_idx (i + j) e a) t k in
    let one = read_pte-write_pte io_page_idx (i + j) e a t k in
    elim (Bool-cases (k == i + j)) [
      | inl same ↦
          let back : j ≡ k - i = ground arith in
          let value = ap (λ m. bit_or (u32 (base + m * 4096)) flag_kernel) back in ground arith
      | inr other ↦ ground arith
    ]

-- `arch_vmm_map_core` looks for as many entries as there are whole pages in the length plus 4096, cut to
-- 32 bits. If the kernel's table for devices has not so many entries in a row that are not in use, it
-- answers 0 and changes nothing. Otherwise it finds so many, answers the address of the first, and
-- enters there the addresses from the base on, a page apart, cut to 32 bits and with the
-- kernel's flags, and nothing else. For a length of
-- 2^32 - 4096 to 2^32 - 1 that are no entries at all: it then answers an address with nothing entered.
pub map_core-maps :
    (base len : ℕ) (a : AddrSpace)
    → let n = u32 (len + 4096) / 4096 in
      ((map_core base len a).0 ≡ 0) × ((map_core base len a).1 ≡ a) × NoRun a n n_entries
      ⊎ ((i : ℕ) × (i + n ≤ n_entries)
          × ((map_core base len a).0 ≡ 0xC000_0000 + 4096 * i)
          × ((k : ℕ) → i ≤ k → k < i + n → is_present (read_pte a io_page_idx k) ≡ false)
          × ((t k : ℕ)
              → read_pte (map_core base len a).1 t k ≡ (
                  if t == io_page_idx && leb i k && ltb k (i + n)
                  then bit_or (u32 (base + (k - i) * 4096)) flag_kernel
                  else read_pte a t k)))
unfolding map_core
map_core-maps base len a =
    let n = u32 (len + 4096) / 4096 in
    let r = find_run a n n_entries 0 0 in
    let (le, hi, unused) =
      find_run-StopsBehind a n n_entries 0 0 refl (omega arith) (λ k lo hi. absurd (omega arith)) in
    elim (Bool-cases (r.1 == n)) [
      | inr none_found ↦
          let no_run : NoRun a n n_entries =
            elim (find_run-NoRun a n n_entries 0 0 refl (omega arith)
              (λ pos s fits free. absurd (omega arith)) (λ lt. absurd (omega arith))) [
                | inl e ↦ absurd (ground arith)
                | inr h ↦ h
              ] in
          rw none_found (inl (refl, refl, no_run))
      | inl found ↦
          let e : r.1 ≡ n = (==_iff _ _).0 found in
          rw found (
            inr (
              r.0 - n,
              omega arith,
              omega arith,
              (λ k lo hi'. unused k (omega arith) (omega arith)),
              (λ t k. let all = read_pte-map_run base (r.0 - n) n 0 a t k in ground arith),
            ))
    ]
