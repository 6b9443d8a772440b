-- ===== src/Kalloc/Limits.antt =====
-- Where `kalloc` and `kfree` do not keep the heap apart: sizes near 2 ^ 32, and a page that becomes
-- whole at the head of the list.
use abel_os.Base.{
  ℕ, ◌+◌, ◌-◌, ◌≤◌, ◌<◌, ◌%◌, ◌^◌, ◌≡◌, refl, ◌∙◌, true, false, [], ◌∷◌, some, ltb, leb, ◌==◌,
  arith, ==_iff, u32, sub32,
}
use abel_os.Kalloc.{
  Block, Blocks, header, page_block, normalize, find_fit, place, overlap, block, carve, search_free,
  kalloc, touch, try_collide, is_page, with_prev, insert_free, take_at, kfree,
}
use abel_os.Kalloc.Blocks.{end_of, IsBlock, Ordered, IsHeap}
use abel_os.Kalloc.Carve.{heap}

normalize-wraps : (n : ℕ) → 2 ^ 32 ≤ n + 9 → n + 1 < 2 ^ 32 → u32 (normalize n + 8) < 8
unfolding normalize
normalize-wraps n lo hi = ground arith

search_free-overlap :
    (n need extra : ℕ) (b : Block) (rest used : Blocks)
    → need < 8
    → 24 ≤ b.size
    → search_free n need extra (heap (b ∷ rest) used) ≡ overlap
unfolding search_free find_fit carve
search_free-overlap n need extra b rest used low big =
    let room : leb need b.size ≡ true = ground arith in
    let wide : ltb b.size (u32 (need + 16)) ≡ false = ground arith in
    let over : ltb need 8 ≡ true = ground arith in
    rw (room, search_free, find_fit) (rw (wide, over) refl)

search_free-zero :
    (extra : ℕ) (b : Block) (rest used : Blocks)
    → b.addr + 8 < 2 ^ 32
    → b.size < 2 ^ 32
    → 24 ≤ b.size
    → search_free 0 8 extra (heap (b ∷ rest) used)
      ≡ block (b.addr + 8) (
          heap
            (record { addr = b.addr + 8; size = b.size - 8 } ∷ rest)
            (record { addr = b.addr; size = 0 } ∷ used))
unfolding search_free find_fit carve
search_free-zero extra b rest used low top big =
    let room : leb 8 b.size ≡ true = ground arith in
    let wide : ltb b.size 24 ≡ false = ground arith in
    let ptr : u32 (b.addr + 8) ≡ b.addr + 8 = omega arith in
    let less : sub32 b.size 8 ≡ b.size - 8 = omega arith in
    rw (room, search_free, find_fit) (rw (wide, ptr, less) refl)

-- For a size of 2 ^ 32 - 9 to 2 ^ 32 - 2, the sum with the header wraps around: no test refuses it,
-- and a first block of 24 bytes or more is split by a header over its own. For 2 ^ 32 - 1 the
-- increment wraps around, and a block of size 0 is given out as that many bytes.
pub kalloc-wraps :
    (first extra : ℕ) (b : Block) (rest used : Blocks)
    → IsBlock b
    → 24 ≤ b.size
    → ((n : ℕ)
        → 2 ^ 32 ≤ n + 9
        → n + 1 < 2 ^ 32
        → kalloc first extra n (heap (b ∷ rest) used) ≡ overlap)
      × (kalloc first extra (2 ^ 32 - 1) (heap (b ∷ rest) used)
          ≡ block (b.addr + 8) (
              heap
                (record { addr = b.addr + 8; size = b.size - 8 } ∷ rest)
                (record { addr = b.addr; size = 0 } ∷ used)))
unfolding kalloc normalize
kalloc-wraps first extra b rest used v big = (
  (λ n lo hi.
      let low = normalize-wraps n lo hi in
      let passes : ltb 4096 (u32 (normalize n + 8)) ≡ false = ground arith in
      rw passes
        (search_free-overlap (normalize n) (u32 (normalize n + 8)) extra b rest used low big)),
  let low = v.low in
      let even = v.even_addr in
      let in_page = v.in_page in search_free-zero extra b rest used (omega arith) (omega arith) big,
)

place_above : (x lo : ℕ) (bs : Blocks) → x ≤ lo → Ordered lo bs → place x bs ≡ ([], bs)
unfolding place
place_above x lo [] h o = refl
place_above x lo (b ∷ bs) h o =
    let first = o.0 in let not_below : ltb b.addr x ≡ false = ground arith in rw not_below refl

-- A block that ends with its page meets no other.
try_collide_end :
    (b : Block) (bs : Blocks) → IsBlock b → end_of b % 4096 ≡ 0 → try_collide b bs ≡ (b, bs)
unfolding try_collide touch
try_collide_end b [] v h = refl
try_collide_end b (c ∷ cs) v h =
    let low = v.low in let differ : touch b c ≡ false = ground arith in rw differ refl

insert_free-behind :
    (hdr c : Block) (rest : Blocks)
    → place hdr.addr (c ∷ rest) ≡ (c ∷ [], rest)
    → try_collide hdr rest ≡ (hdr, rest)
    → is_page hdr ≡ false
    → insert_free hdr (c ∷ rest) ≡ with_prev [] c hdr rest
unfolding insert_free
insert_free-behind hdr c rest split alone part =
    rw (split, insert_free) (rw alone (rw part (rw split (rw alone refl))))

module _ (a : ℕ) (b : Block) (rest used : Blocks)
    (v : IsHeap (heap (record { addr = a; size = b.addr - (a + 8) } ∷ rest) (b ∷ used)))
    (aligned : a % 4096 ≡ 0) (behind : a + 8 ≤ b.addr) (ends : end_of b ≡ a + 4096) where
  joins :
      with_prev [] (record { addr = a; size = b.addr - (a + 8) }) b rest
      ≡ (page_block a ∷ rest, a ∷ [])
  unfolding with_prev try_collide touch
  joins =
      let c : Block = record { addr = a; size = b.addr - (a + 8) } in
      let block = v.used_blocks.0 in
      let low = block.low in
      let even = block.even_addr in
      let in_page = block.in_page in
      let meet : touch c b ≡ true = ground arith in
      let whole : u32 (c.size + b.size + 8) ≡ 4088 = omega arith in rw meet (rw whole refl)

  inserts :
      insert_free b (record { addr = a; size = b.addr - (a + 8) } ∷ rest)
      ≡ (page_block a ∷ rest, a ∷ [])
  unfolding place
  inserts =
      let c : Block = record { addr = a; size = b.addr - (a + 8) } in
      let block = v.used_blocks.0 in
      let below : ltb a b.addr ≡ true = ground arith in
      let above : place b.addr rest ≡ ([], rest) =
        place_above b.addr (end_of c) rest (omega arith) v.ordered.1 in
      let split : place b.addr (c ∷ rest) ≡ (c ∷ [], rest) = rw (above, below) refl in
      let alone : try_collide b rest ≡ (b, rest) = try_collide_end b rest block (omega arith) in
      let part : (b.size == 4088) ≡ false = ground arith in
      insert_free-behind b c rest split alone part ∙ joins

  -- If the block behind the first free one completes its page, `kfree` gives the page back, and the
  -- list still starts with it.
  pub kfree-dangles :
      kfree (b.addr + 8) (heap (record { addr = a; size = b.addr - (a + 8) } ∷ rest) (b ∷ used))
      ≡ some (heap (page_block a ∷ rest) used, a ∷ [])
  unfolding kfree take_at
  kfree-dangles =
      let block = v.used_blocks.0 in
      let low = block.low in
      let even = block.even_addr in
      let in_page = block.in_page in
      let live : (b.addr + 8 == 0) ≡ false = ground arith in
      let back : sub32 (b.addr + 8) header ≡ b.addr = omega arith in
      let here : (b.addr == b.addr) ≡ true = (==_iff b.addr b.addr).1 refl in
      rw (live, back, here) (rw inserts refl)
