-- ===== src/Kalloc/Blocks.antt =====
-- Blocks as ranges of addresses: inside one page, apart from one another, in order.
use abel_os.Base.{
  ℕ, Bool, true, ◌/◌, ◌+◌, ◌%◌, ◌^◌, ◌≤◌, ◌<◌, ◌≡◌, [], ◌∷◌, ◌++◌, arith, ◌⊎◌, inl, inr,
}
use abel_os.Kalloc.{Block, Blocks, Heap, page_block}

-- The first address behind a block, whose header takes 8 bytes.
abbrev pub end_of : Block → ℕ
end_of b = b.addr + 8 + b.size

-- A block lies in one page, which is not page 0, at even addresses of 32 bits.
pub record IsBlock (b : Block) : Type 0 where
  pub in_page : b.addr % 4096 + 8 + b.size ≤ 4096
  pub low : b.addr < 2 ^ 32
  pub not_null : 4096 ≤ b.addr
  pub even_addr : b.addr % 2 ≡ 0
  pub even_size : b.size % 2 ≡ 0

-- No address is in both.
abbrev pub Apart : Block → Block → Type 0
Apart b c = (end_of b ≤ c.addr) ⊎ (end_of c ≤ b.addr)

-- `c` lies in `b`.
abbrev pub Inside : Block → Block → Type 0
Inside c b = (b.addr ≤ c.addr) × (end_of c ≤ end_of b)

abbrev pub AreBlocks : Blocks → Type 0
AreBlocks [] = Unit {0}
AreBlocks (b ∷ bs) = IsBlock b × AreBlocks bs

abbrev pub AllApart : Block → Blocks → Type 0
AllApart b [] = Unit {0}
AllApart b (c ∷ cs) = Apart b c × AllApart b cs

abbrev pub PairApart : Blocks → Type 0
PairApart [] = Unit {0}
PairApart (b ∷ bs) = AllApart b bs × PairApart bs

abbrev pub Separate : Blocks → Blocks → Type 0
Separate [] cs = Unit {0}
Separate (b ∷ bs) cs = AllApart b cs × Separate bs cs

-- In the order of the addresses, from `lo` on, without overlap.
abbrev pub Ordered : ℕ → Blocks → Type 0
Ordered lo [] = Unit {0}
Ordered lo (b ∷ bs) = (lo ≤ b.addr) × Ordered (end_of b) bs

-- The heap between calls.
pub record IsHeap (h : Heap) : Type 0 where
  pub ordered : Ordered 0 h.free
  pub free_blocks : AreBlocks h.free
  pub used_blocks : AreBlocks h.used
  pub used_apart : PairApart h.used
  pub separate : Separate h.used h.free

-- A page that `vmm_alloc_page` may return: no block of the heap lies in it.
pub record IsNewPage (page : ℕ) (h : Heap) : Type 0 where
  pub page_lem : IsBlock (page_block page)
  pub not_free : AllApart (page_block page) h.free
  pub not_used : AllApart (page_block page) h.used

pub Apart-sym : (b c : Block) → Apart b c → Apart c b
Apart-sym b c (inl h) = inr h
Apart-sym b c (inr h) = inl h

pub Apart-Inside : (x b c : Block) → Inside c b → Apart x b → Apart x c
Apart-Inside x b c i (inl h) = inl (omega arith)
Apart-Inside x b c i (inr h) = inr (omega arith)

pub AllApart-Inside : (b c : Block) (bs : Blocks) → Inside c b → AllApart b bs → AllApart c bs
AllApart-Inside b c [] i h = tt
AllApart-Inside b c (x ∷ xs) i h =
    (Apart-sym x c (Apart-Inside x b c i (Apart-sym b x h.0)), AllApart-Inside b c xs i h.1)

-- A block apart from every used block, in the other direction.
pub Separate-cons :
    (us : Blocks) (b : Block) (fs : Blocks) → AllApart b us → Separate us fs → Separate us (b ∷ fs)
Separate-cons [] b fs h s = tt
Separate-cons (u ∷ us) b fs h s = ((Apart-sym b u h.0, s.0), Separate-cons us b fs h.1 s.1)

-- Each block starts in a page that passes the test.
abbrev pub AllIn : (ℕ → Bool) → Blocks → Type 0
AllIn test [] = Unit {0}
AllIn test (b ∷ bs) = (test (b.addr / 4096) ≡ true) × AllIn test bs

-- A list whose blocks are taken together or dropped: what holds of the old list holds of the new.
pub record Coarser (xs ys : Blocks) : Type 0 where
  pub ordered : (lo : ℕ) → AreBlocks xs → Ordered lo xs → Ordered lo ys
  pub blocks : AreBlocks xs → AreBlocks ys
  pub apart : (x : Block) → AreBlocks xs → AllApart x xs → AllApart x ys
  pub pages : (test : ℕ → Bool) → AreBlocks xs → AllIn test xs → AllIn test ys

pub Coarser-refl : (xs : Blocks) → Coarser xs xs
Coarser-refl xs = record {
  ordered = λ lo w h. h;
  blocks = λ w. w;
  apart = λ x w h. h;
  pages = λ test w h. h;
}

pub Coarser-trans : (xs ys zs : Blocks) → Coarser xs ys → Coarser ys zs → Coarser xs zs
Coarser-trans xs ys zs c d = record {
  ordered = λ lo w h. d.ordered lo (c.blocks w) (c.ordered lo w h);
  blocks = λ w. d.blocks (c.blocks w);
  apart = λ x w h. d.apart x (c.blocks w) (c.apart x w h);
  pages = λ test w h. d.pages test (c.blocks w) (c.pages test w h);
}

pub Coarser-cons : (b : Block) (xs ys : Blocks) → Coarser xs ys → Coarser (b ∷ xs) (b ∷ ys)
Coarser-cons b xs ys c = record {
  ordered = λ lo w h. (h.0, c.ordered (end_of b) w.1 h.1);
  blocks = λ w. (w.0, c.blocks w.1);
  apart = λ x w h. (h.0, c.apart x w.1 h.1);
  pages = λ test w h. (h.0, c.pages test w.1 h.1);
}

-- It is enough to look behind a common prefix.
pub Coarser-append : (ps xs ys : Blocks) → Coarser xs ys → Coarser (ps ++ xs) (ps ++ ys)
Coarser-append [] xs ys c = c
Coarser-append (p ∷ ps) xs ys c = Coarser-cons p (ps ++ xs) (ps ++ ys) (Coarser-append ps xs ys c)

Ordered-from : (lo hi : ℕ) (bs : Blocks) → lo ≤ hi → Ordered hi bs → Ordered lo bs
Ordered-from lo hi [] h o = tt
Ordered-from lo hi (b ∷ bs) h o = let first = o.0 in (omega arith, o.1)

pub Coarser-drop : (b : Block) (bs : Blocks) → Coarser (b ∷ bs) bs
Coarser-drop b bs = record {
  ordered = λ lo w h. let first = h.0 in Ordered-from lo (end_of b) bs (omega arith) h.1;
  blocks = λ w. w.1;
  apart = λ x w h. h.1;
  pages = λ test w h. h.1;
}

-- A smaller block in the place of one.
pub Coarser-Inside :
    (b c : Block) (bs : Blocks) → IsBlock c → Inside c b → Coarser (b ∷ bs) (c ∷ bs)
Coarser-Inside b c bs v i = record {
  ordered = λ lo w h.
      let first = h.0 in (omega arith, Ordered-from (end_of c) (end_of b) bs (omega arith) h.1);
  blocks = λ w. (v, w.1);
  apart = λ x w h. (Apart-Inside x b c i h.0, h.1);
  pages = λ test w h.
      let in_page = w.0.in_page in
      let same : c.addr / 4096 ≡ b.addr / 4096 = omega arith in (rw same h.0, h.1);
}

above : (b : Block) (lo : ℕ) (cs : Blocks) → end_of b ≤ lo → Ordered lo cs → AllApart b cs
above b lo [] h o = tt
above b lo (c ∷ cs) h o =
    let first = o.0 in (inl (omega arith), above b (end_of c) cs (omega arith) o.1)

-- In an ordered list a block is apart from all others.
pub Ordered-AllApart :
    (lo : ℕ) (before : Blocks) (b : Block) (after : Blocks)
    → Ordered lo (before ++ b ∷ after)
    → AllApart b (before ++ after)
Ordered-AllApart lo [] b after o = above b (end_of b) after (omega arith) o.1
Ordered-AllApart lo (c ∷ cs) b after o =
    (inr (start_of (end_of c) cs b after o.1), Ordered-AllApart (end_of c) cs b after o.1)
  where
    start_of :
        (lo : ℕ) (before : Blocks) (b : Block) (after : Blocks)
        → Ordered lo (before ++ b ∷ after)
        → lo ≤ b.addr
    start_of lo [] b after o = o.0
    start_of lo (d ∷ ds) b after o =
        let first = o.0 in let rest = start_of (end_of d) ds b after o.1 in omega arith
