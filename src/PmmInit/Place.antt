-- ===== src/PmmInit/Place.antt =====
-- The search of `get_free_mem_range_for_bitmap` for the bitmap's place.
use abel_os.Base.{
  ℕ, zero, suc, ◌+◌, ◌≤◌, ◌<◌, ◌^◌, ◌≡◌, refl, true, false, List, [], ◌∷◌, Option, some, arith, ltb,
  if◌then◌else◌, u64, ◌⊎◌, inl, inr, Bool-cases,
}
use abel_os.PmmInit.{
  E820Frame, mem_usable, BootInfo, KernelImage, frames_collide, Reserved, bootstrap, e820_table,
  kernel_pages, hits, settle, Search, found, not_found, diverges, skips, rounds, search_frames,
  get_free_mem_range_for_bitmap,
}

-- A range that is not empty, with room for `len` bytes behind it in the 64-bit addresses.
pub record IsRange (len : ℕ) (r : Reserved) : Type 0 where
  pub not_empty : r.from < r.to
  pub room : r.to + len < 2 ^ 64

-- No address is in both ranges.
abbrev pub Apart : ℕ → ℕ → Reserved → Type 0
Apart start len r = (start + len ≤ r.from) ⊎ (r.to ≤ start)

module _ {len : ℕ} {r : Reserved} (w : IsRange len r) (start : ℕ)
    (room : start + len < 2 ^ 64) where
  hit : hits start len r ≡ true → start < r.to
  unfolding frames_collide
  hit h = ground arith

  miss : hits start len r ≡ false → 0 < len → Apart start len r
  unfolding frames_collide
  miss h pos = ground arith

-- No frame ends behind the 64-bit addresses.
abbrev pub FramesEnd : List E820Frame → Type 0
FramesEnd [] = Unit {0}
FramesEnd (f ∷ fs) = (f.base + f.size < 2 ^ 64) × FramesEnd fs

module _ (len : ℕ) (r1 r2 r3 : Reserved) where
  -- The frame `f` holds the `len` bytes from `start` on, and no reserved range touches them.
  pub record Holds (start : ℕ) (f : E820Frame) : Type 0 where
    pub usable : f.kind ≡ mem_usable
    pub starts : f.base ≤ start
    pub stops : start + len < f.base + f.size
    pub low : f.base < 0xffff_ffff
    pub apart1 : Apart start len r1
    pub apart2 : Apart start len r2
    pub apart3 : Apart start len r3

  -- Some frame of the list holds the place.
  abbrev pub SomeHolds : ℕ → List E820Frame → Type 0
  SomeHolds start [] = ⊥
  SomeHolds start (f ∷ fs) = Holds start f ⊎ SomeHolds start fs

  -- A search that ends, and with a place that is fit where it finds one.
  abbrev pub IsAnswer : List E820Frame → Search → Type 0
  IsAnswer fs (found start) = SomeHolds start fs
  IsAnswer fs not_found = Unit {0}
  IsAnswer fs diverges = ⊥

  IsAnswer-later :
      (f : E820Frame) (fs : List E820Frame) (o : Search) → IsAnswer fs o → IsAnswer (f ∷ fs) o
  IsAnswer-later f fs (found start) h = inr h
  IsAnswer-later f fs not_found h = tt
  IsAnswer-later f fs diverges h = h

-- How many of the ranges end behind `start`: each jump lowers it.
abbrev behind : ℕ → Reserved → ℕ
behind start r = if ltb start r.to then 1 else 0

module _ (len : ℕ) (r1 r2 r3 : Reserved) (pos : 0 < len) (w1 : IsRange len r1) (w2 : IsRange len r2)
    (w3 : IsRange len r3) where
  abbrev left : ℕ → ℕ
  left start = behind start r1 + behind start r2 + behind start r3

  record Settled (start : ℕ) (o : Option ℕ) : Type 0 where
    place : ℕ
    ends : o ≡ some place
    not_before : start ≤ place
    room_behind : place + len < 2 ^ 64
    apart1 : Apart place len r1
    apart2 : Apart place len r2
    apart3 : Apart place len r3

  Settled-later : {start next : ℕ} {o : Option ℕ} → start ≤ next → Settled next o → Settled start o
  Settled-later h s = record {
    place = s.place;
    ends = s.ends;
    not_before = omega (arith, s.not_before);
    room_behind = s.room_behind;
    apart1 = s.apart1;
    apart2 = s.apart2;
    apart3 = s.apart3;
  }

  settle-Settled :
      (fuel start : ℕ)
      → left start < fuel
      → start + len < 2 ^ 64
      → Settled start (settle fuel len r1 r2 r3 start)
  unfolding settle
  settle-Settled zero start h room = absurd (omega arith)
  settle-Settled (suc fuel) start h room = elim (Bool-cases (hits start len r1)) [
    | inl h1 ↦
        let later = hit w1 start room h1 in
        rw h1 (Settled-later (omega arith) (settle-Settled fuel r1.to (ground arith) w1.room))
    | inr m1 ↦ elim (Bool-cases (hits start len r2)) [
      | inl h2 ↦
          let later = hit w2 start room h2 in
          rw (m1, h2)
            (Settled-later (omega arith) (settle-Settled fuel r2.to (ground arith) w2.room))
      | inr m2 ↦ elim (Bool-cases (hits start len r3)) [
        | inl h3 ↦
            let later = hit w3 start room h3 in
            rw (m1, m2, h3)
              (Settled-later (omega arith) (settle-Settled fuel r3.to (ground arith) w3.room))
        | inr m3 ↦
            rw (m1, m2, m3)
              (record {
                place = start;
                ends = refl;
                not_before = omega arith;
                room_behind = room;
                apart1 = miss w1 start room m1 pos;
                apart2 = miss w2 start room m2 pos;
                apart3 = miss w3 start room m3 pos;
              })
      ]
    ]
  ]

  pub search_frames-IsAnswer :
      (fs : List E820Frame)
      → len < 2 ^ 62
      → FramesEnd fs
      → IsAnswer len r1 r2 r3 fs (search_frames len r1 r2 r3 fs)
  unfolding search_frames
  search_frames-IsAnswer [] small ends = tt
  search_frames-IsAnswer (f ∷ fs) small ends =
      let rest = search_frames-IsAnswer fs small ends.1 in
      elim (Bool-cases (skips len f)) [
        | inl skipped ↦
            rw skipped (IsAnswer-later len r1 r2 r3 f fs (search_frames len r1 r2 r3 fs) rest)
        | inr taken ↦
            let low : f.base < 0xffff_ffff = ground arith in
            let s = settle-Settled rounds f.base (ground arith) (omega arith) in
            let fits_here = ltb (u64 (s.place + len)) (u64 (f.base + f.size)) in
            rw (taken, s.ends)
              (elim (Bool-cases fits_here) [
                | inl here ↦ rw here (
                    inl (record {
                      usable = ground arith;
                      starts = s.not_before;
                      stops = ground (arith, s.room_behind);
                      low = low;
                      apart1 = s.apart1;
                      apart2 = s.apart2;
                      apart3 = s.apart3;
                    }))
                | inr there ↦
                    rw there (IsAnswer-later len r1 r2 r3 f fs (search_frames len r1 r2 r3 fs) rest)
              ])
      ]

-- With reserved ranges that are not empty, the search for the bitmap's place ends; the place that
-- it finds lies inside one usable frame that starts below 4 GiB, and touches neither the bootstrap
-- code, nor the e820 table, nor the kernel's pages.
pub get_free_mem_range-IsAnswer :
    (k : KernelImage) (b : BootInfo) (len : ℕ)
    → 0 < len
    → len < 2 ^ 62
    → IsRange len (bootstrap b)
    → IsRange len (e820_table b)
    → IsRange len (kernel_pages k)
    → FramesEnd b.frames
    → IsAnswer len
        (bootstrap b)
        (e820_table b)
        (kernel_pages k)
        b.frames
        (get_free_mem_range_for_bitmap k b len)
unfolding get_free_mem_range_for_bitmap
get_free_mem_range-IsAnswer k b len pos small w1 w2 w3 ends =
    search_frames-IsAnswer len (bootstrap b) (e820_table b) (kernel_pages k) pos w1 w2 w3 b.frames
      small ends
