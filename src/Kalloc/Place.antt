-- ===== src/Kalloc/Place.antt =====
-- The search for room, and the place of an address in the list.
use abel_os.Base.{
  ℕ, ◌≤◌, ◌≡◌, refl, sym, ap, [], ◌∷◌, ◌++◌, Option, none, some, leb, ltb, arith, inl, inr,
  Bool-cases,
}
use abel_os.Kalloc.{Block, Blocks, find_fit, place}
use mathlib.Core.Path.{subst}
use abel_os.Kalloc.Blocks.{
  Apart-sym, end_of, IsBlock, Apart, AreBlocks, AllApart, Separate, Ordered, IsHeap,
}

pub place-append : (a : ℕ) (bs : Blocks) → (place a bs).0 ++ (place a bs).1 ≡ bs
unfolding place
place-append a [] = refl
place-append a (b ∷ bs) = elim (Bool-cases (ltb b.addr a)) [
  | inl below ↦ rw below (ap (λ l. b ∷ l) (place-append a bs))
  | inr here ↦ rw here refl
]

-- A block apart from all others keeps the order where its address puts it.
pub Ordered-place :
    (lo : ℕ) (x : Block) (bs : Blocks)
    → lo ≤ x.addr
    → AllApart x bs
    → Ordered lo bs
    → Ordered lo ((place x.addr bs).0 ++ (x ∷ (place x.addr bs).1))
unfolding place
Ordered-place lo x [] h apart o = (h, tt)
Ordered-place lo x (b ∷ bs) h apart o =
    let first = o.0 in
    let one = apart.0 in
    elim (Bool-cases (ltb b.addr x.addr)) [
      | inl below ↦ rw below (first, Ordered-place (end_of b) x bs (ground arith) apart.1 o.1)
      | inr here ↦ rw here (h, (ground arith, o.1))
    ]

pub AreBlocks-insert :
    (before : Blocks) (x : Block) (after : Blocks)
    → IsBlock x
    → AreBlocks (before ++ after)
    → AreBlocks (before ++ (x ∷ after))
AreBlocks-insert [] x after v w = (v, w)
AreBlocks-insert (b ∷ bs) x after v w = (w.0, AreBlocks-insert bs x after v w.1)

pub AllApart-insert :
    (before : Blocks) (u x : Block) (after : Blocks)
    → Apart u x
    → AllApart u (before ++ after)
    → AllApart u (before ++ (x ∷ after))
AllApart-insert [] u x after h w = (h, w)
AllApart-insert (b ∷ bs) u x after h w = (w.0, AllApart-insert bs u x after h w.1)

Separate-insert :
    (us before : Blocks) (x : Block) (after : Blocks)
    → AllApart x us
    → Separate us (before ++ after)
    → Separate us (before ++ (x ∷ after))
Separate-insert [] before x after h s = tt
Separate-insert (u ∷ us) before x after h s = (
  AllApart-insert before u x after (Apart-sym x u h.0) s.0,
  Separate-insert us before x after h.1 s.1,
)

-- A block apart from all others of the heap joins the free list.
pub IsHeap-place :
    (x : Block) (free used : Blocks)
    → IsBlock x
    → AllApart x free
    → AllApart x used
    → IsHeap (record { free = free; used = used })
    → IsHeap (record { free = (place x.addr free).0 ++ (x ∷ (place x.addr free).1); used = used })
IsHeap-place x free used w apart others v =
    let (before, after) = place x.addr free in
    let same = sym (place-append x.addr free) in
    record {
      ordered = Ordered-place 0 x free (omega arith) apart v.ordered;
      free_blocks = AreBlocks-insert before x after w (subst (λ l. AreBlocks l) same v.free_blocks);
      used_blocks = v.used_blocks;
      used_apart = v.used_apart;
      separate =
          Separate-insert used before x after others (subst (λ l. Separate used l) same v.separate);
    }

-- What the search for room finds.
abbrev pub Fits : ℕ → Blocks → Option (Blocks × Block × Blocks) → Type 0
Fits need free none = Unit {0}
Fits need free (some (before, b, after)) = (free ≡ before ++ (b ∷ after)) × (need ≤ b.size)

pub find_fit-Fits : (need : ℕ) (free : Blocks) → Fits need free (find_fit need free)
unfolding find_fit
find_fit-Fits need [] = tt
find_fit-Fits need (b ∷ bs) = elim (Bool-cases (leb need b.size)) [
  | inl room ↦ rw room (refl, ground arith)
  | inr small ↦ rw small (skip b bs (find_fit need bs) (find_fit-Fits need bs))
]
  where
    skip :
        (c : Block) (cs : Blocks) (r : Option (Blocks × Block × Blocks))
        → Fits need cs r
        → Fits need
            (c ∷ cs)
            (elim r [ none ↦ none | some (before, found, after) ↦ some (c ∷ before, found, after) ])
    skip c cs none h = tt
    skip c cs (some (before, found, after)) h = (ap (λ l. c ∷ l) h.0, h.1)
