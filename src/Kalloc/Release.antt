-- ===== src/Kalloc/Release.antt =====
-- The pages that `kfree` touches.
use abel_os.Base.{
  none, Option, inl, inr, Bool-cases, Bool, true, ◌/◌, ℕ, ◌+◌, ◌≡◌, refl, sym, List, [], ◌∷◌, ◌++◌,
  some,
}
use mathlib.Core.Path.{subst}
use abel_os.Kalloc.{
  try_collide, with_prev, split_last, is_page, Block, Blocks, Heap, page_block, place, insert_free,
  kfree,
}
use abel_os.Kalloc.Blocks.{AllIn, IsBlock, AreBlocks, IsHeap}
use abel_os.Kalloc.Place.{place-append}
use abel_os.Kalloc.Carve.{heap}
use abel_os.Kalloc.Insert.{GivesBack, insert_free-Freed}
use abel_os.Kalloc.Free.{
  PagesReturned, put_back, put_back-IsHeap, insert_free-IsHeap, kfree-insert_free,
}

-- `kfree` gives one page back, or none.
abbrev pub AtMostOne : List ℕ → Type 0
AtMostOne [] = Unit {0}
AtMostOne (p ∷ []) = Unit {0}
AtMostOne (p ∷ (q ∷ ps)) = ⊥

with_prev-AtMostOne :
    (front : Blocks) (prev b : Block) (after : Blocks) → AtMostOne (with_prev front prev b after).1
unfolding with_prev
with_prev-AtMostOne front prev b after =
    elim (Bool-cases (is_page (try_collide prev (b ∷ after)).0)) [
      | inl page ↦ rw page tt
      | inr part ↦ rw part tt
    ]

pub insert_free-AtMostOne : (hdr : Block) (free : Blocks) → AtMostOne (insert_free hdr free).1
unfolding insert_free
insert_free-AtMostOne hdr free =
    let (before, after) = place hdr.addr free in
    let (b, rest) = try_collide hdr after in
    elim (Bool-cases (is_page b)) [
      | inl page ↦ rw page tt
      | inr part ↦ rw part (behind before b rest (split_last before))
    ]
  where
    behind :
        (before : Blocks) (b : Block) (rest : Blocks) (r : Option (Blocks × Block))
        → let found : Blocks × List ℕ = elim r [
          | none ↦ (b ∷ rest, [])
          | some (front, prev) ↦ with_prev front prev b rest
        ] in
          AtMostOne found.1
    behind before b rest none = tt
    behind before b rest (some (front, prev)) = with_prev-AtMostOne front prev b rest

-- The pages that `kfree` gives back are whole pages that pass a test which the pages of all blocks pass.
abbrev pub PagesIn : (ℕ → Bool) → List ℕ → Type 0
PagesIn test [] = Unit {0}
PagesIn test (p ∷ ps) = (IsBlock (page_block p) × (test (p / 4096) ≡ true)) × PagesIn test ps

pages_in :
    (test : ℕ → Bool) (old new : Blocks) (pages : List ℕ)
    → AreBlocks old
    → AllIn test old
    → GivesBack old new pages
    → PagesIn test pages
pages_in test old new [] w m g = tt
pages_in test old new (p ∷ ps) w m g = (g.0.2 test w m, pages_in test old new ps w m g.1)

AllIn-drop :
    (test : ℕ → Bool) (before : Blocks) (b : Block) (after : Blocks)
    → AllIn test (before ++ (b ∷ after))
    → AllIn test (before ++ after) × (test (b.addr / 4096) ≡ true)
AllIn-drop test [] b after m = (m.1, m.0)
AllIn-drop test (c ∷ cs) b after m =
    let (rest, here) = AllIn-drop test cs b after m.1 in ((m.0, rest), here)

AllIn-insert :
    (test : ℕ → Bool) (before : Blocks) (b : Block) (after : Blocks)
    → test (b.addr / 4096) ≡ true
    → AllIn test (before ++ after)
    → AllIn test (before ++ (b ∷ after))
AllIn-insert test [] b after h m = (h, m)
AllIn-insert test (c ∷ cs) b after h m = (m.0, AllIn-insert test cs b after h m.1)

-- What holds of the pages of all blocks still does after `kfree`, and does of the pages given back.
pub kfree-AllIn :
    (test : ℕ → Bool) (h : Heap) (before : Blocks) (b : Block) (after : Blocks)
    → IsHeap h
    → h.used ≡ before ++ (b ∷ after)
    → AllIn test h.free
    → AllIn test h.used
    → (h' : Heap) × (pages : List ℕ) × (kfree (b.addr + 8) h ≡ some (h', pages))
      × (h'.used ≡ before ++ after)
      × IsHeap h'
      × PagesReturned pages h'
      × AllIn test h'.free
      × AllIn test h'.used
      × PagesIn test pages
      × AtMostOne pages
kfree-AllIn test h before b after v same free used =
    let (w, back) = insert_free-IsHeap h before b after v same in
    let more = put_back-IsHeap h before b after v same in
    let (c, gives) = insert_free-Freed b h.free in
    let (left, here) = AllIn-drop test before b after (subst (AllIn test) same used) in
    let old : AllIn test (put_back h before b after v same) =
      AllIn-insert test (place b.addr h.free).0 b (place b.addr h.free).1 here
        (subst (AllIn test) (sym (place-append b.addr h.free)) free) in
    (
      heap (insert_free b h.free).0 (before ++ after),
      (insert_free b h.free).1,
      kfree-insert_free h before b after v same,
      refl,
      w,
      back,
      c.pages test more.free_blocks old,
      left,
      pages_in test (put_back h before b after v same) _ (insert_free b h.free).1 more.free_blocks
          old gives,
      insert_free-AtMostOne b h.free,
    )
