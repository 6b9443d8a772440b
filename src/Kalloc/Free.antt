-- ===== src/Kalloc/Free.antt =====
-- `kfree` of a pointer that `kalloc` has given out.
use abel_os.Base.{
  ℕ, ◌+◌, ◌≡◌, refl, false, List, [], ◌∷◌, ◌++◌, some, ◌==◌, arith, ◌⊎◌, inl, inr, ==_iff, sub32,
}
use mathlib.Core.Path.{subst}
use abel_os.Kalloc.{Block, Blocks, Heap, header, page_block, place, insert_free, take_at, kfree}
use abel_os.Kalloc.Blocks.{Apart, Apart-sym, AreBlocks, AllApart, PairApart, Separate, IsHeap}
use abel_os.Kalloc.Place.{IsHeap-place}
use abel_os.Kalloc.Carve.{heap, AreBlocks-middle, AllApart-middle, Separate-Coarser}
use abel_os.Kalloc.Insert.{GivesBack, insert_free-Freed}

-- Used blocks have addresses of their own, so the address finds the block.
take_at-middle :
    (before : Blocks) (b : Block) (after : Blocks)
    → PairApart (before ++ (b ∷ after))
    → take_at b.addr (before ++ (b ∷ after)) ≡ some (b, before ++ after)
unfolding take_at
take_at-middle [] b after h = let e = (==_iff b.addr b.addr).1 refl in rw e refl
take_at-middle (c ∷ cs) b after h =
    let ne : (c.addr == b.addr) ≡ false = differ c b (AllApart-middle c cs b after h.0) in
    rw (ne, take_at-middle cs b after h.1) refl
  where
    differ : (c b : Block) → Apart c b → (c.addr == b.addr) ≡ false
    differ c b (inl h) = ground arith
    differ c b (inr h) = ground arith

AreBlocks-drop :
    (before : Blocks) (b : Block) (after : Blocks)
    → AreBlocks (before ++ (b ∷ after))
    → AreBlocks (before ++ after)
AreBlocks-drop [] b after w = w.1
AreBlocks-drop (c ∷ cs) b after w = (w.0, AreBlocks-drop cs b after w.1)

AllApart-drop :
    (x : Block) (before : Blocks) (b : Block) (after : Blocks)
    → AllApart x (before ++ (b ∷ after))
    → AllApart x (before ++ after)
AllApart-drop x [] b after w = w.1
AllApart-drop x (c ∷ cs) b after w = (w.0, AllApart-drop x cs b after w.1)

PairApart-drop :
    (before : Blocks) (b : Block) (after : Blocks)
    → PairApart (before ++ (b ∷ after))
    → PairApart (before ++ after) × AllApart b (before ++ after)
PairApart-drop [] b after w = (w.1, w.0)
PairApart-drop (c ∷ cs) b after w =
    let (rest, own) = PairApart-drop cs b after w.1 in
    (
      (AllApart-drop c cs b after w.0, rest),
      (Apart-sym c b (AllApart-middle c cs b after w.0), own),
    )

Separate-drop :
    (before : Blocks) (b : Block) (after free : Blocks)
    → Separate (before ++ (b ∷ after)) free
    → Separate (before ++ after) free × AllApart b free
Separate-drop [] b after free s = (s.1, s.0)
Separate-drop (c ∷ cs) b after free s =
    let (rest, own) = Separate-drop cs b after free s.1 in ((s.0, rest), own)

-- What `kfree` may do with a page: no block in use lies in it, nor a free one, except that the list
-- may start with the page itself.
abbrev pub PagesReturned : List ℕ → Heap → Type 0
PagesReturned [] h = Unit {0}
PagesReturned (p ∷ ps) h =
    (AllApart (page_block p) h.used
      × (AllApart (page_block p) h.free ⊎ ((rest : Blocks) × (h.free ≡ page_block p ∷ rest))))
    × PagesReturned ps h

Apart-from_used :
    (us free : Blocks) (p : ℕ)
    → ((x : Block) → AllApart x free → Apart x (page_block p))
    → Separate us free
    → AllApart (page_block p) us
Apart-from_used [] free p f s = tt
Apart-from_used (u ∷ us) free p f s =
    (Apart-sym u (page_block p) (f u s.0), Apart-from_used us free p f s.1)

returned :
    (used old new : Blocks) (pages : List ℕ)
    → IsHeap (heap old used)
    → GivesBack old new pages
    → PagesReturned pages (heap new used)
returned used old new [] v g = tt
returned used old new (p ∷ ps) v g = (
  (
    Apart-from_used used old p (λ x. g.0.0 x v.free_blocks) v.separate,
    g.0.1 v.free_blocks v.ordered,
  ),
  returned used old new ps v g.1,
)

module _ (h : Heap) (before : Blocks) (b : Block) (after : Blocks) (v : IsHeap h)
    (same : h.used ≡ before ++ (b ∷ after)) where
  -- The list with the block in its place, before the blocks around it join it.
  abbrev pub put_back : Blocks
  put_back = (place b.addr h.free).0 ++ (b ∷ (place b.addr h.free).1)

  pub before_free : IsHeap (heap h.free (before ++ (b ∷ after)))
  before_free = subst (λ l. IsHeap (heap h.free l)) same v

  pub kfree-insert_free :
      kfree (b.addr + 8) h
      ≡ some (heap (insert_free b h.free).0 (before ++ after), (insert_free b h.free).1)
  unfolding kfree
  kfree-insert_free =
      let block = AreBlocks-middle before b after before_free.used_blocks in
      let low = block.low in
      let in_page = block.in_page in
      let live : (b.addr + 8 == 0) ≡ false = ground arith in
      let back : sub32 (b.addr + 8) header ≡ b.addr = omega arith in
      rw (live, back, same, take_at-middle before b after before_free.used_apart) refl

  pub put_back-IsHeap : IsHeap (heap put_back (before ++ after))
  put_back-IsHeap =
      let (pairs, own) = PairApart-drop before b after before_free.used_apart in
      let (sep, alone) = Separate-drop before b after h.free before_free.separate in
      IsHeap-place b h.free (before ++ after)
        (AreBlocks-middle before b after before_free.used_blocks) alone own
        (record {
          ordered = before_free.ordered;
          free_blocks = before_free.free_blocks;
          used_blocks = AreBlocks-drop before b after before_free.used_blocks;
          used_apart = pairs;
          separate = sep;
        })

  pub insert_free-IsHeap :
      let (new, pages) = insert_free b h.free in
      IsHeap (heap new (before ++ after)) × PagesReturned pages (heap new (before ++ after))
  insert_free-IsHeap =
      let used = before ++ after in
      let more = put_back-IsHeap in
      let (c, gives) = insert_free-Freed b h.free in
      let (new, pages) = insert_free b h.free in
      (
        record {
          ordered = c.ordered 0 more.free_blocks more.ordered;
          free_blocks = c.blocks more.free_blocks;
          used_blocks = more.used_blocks;
          used_apart = more.used_apart;
          separate = Separate-Coarser used put_back new c more.free_blocks more.separate;
        },
        returned used put_back new pages more gives,
      )

-- On a heap that satisfies the invariant, freeing the pointer of a block in use succeeds: exactly
-- this block is no longer in use, the invariant still holds, and a page that is given back holds no
-- block in use, and no free one either unless it is itself left as the first block of the list.
pub kfree-IsHeap :
    (h : Heap) (before : Blocks) (b : Block) (after : Blocks)
    → IsHeap h
    → h.used ≡ before ++ (b ∷ after)
    → (h' : Heap) × (pages : List ℕ) × (kfree (b.addr + 8) h ≡ some (h', pages))
      × (h'.used ≡ before ++ after)
      × IsHeap h'
      × PagesReturned pages h'
kfree-IsHeap h before b after v same =
    let (w, back) = insert_free-IsHeap h before b after v same in
    (
      heap (insert_free b h.free).0 (before ++ after),
      (insert_free b h.free).1,
      kfree-insert_free h before b after v same,
      refl,
      w,
      back,
    )
