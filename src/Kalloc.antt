-- ===== src/Kalloc.antt =====
-- The kernel heap of os/src/kernel/kalloc/kalloc.c: a free list of blocks in the order of their
-- addresses, cut out of single pages. A block is the address of its `struct kobject_header` and the
-- size behind it. `used` are the blocks whose `props` say KOBJECT_HEADER_USED.
pub mod Blocks
pub mod Place
pub mod Carve
pub mod Alloc
pub mod Insert
pub mod Free
pub mod Release
pub mod Fresh
pub mod Mapped
pub mod Limits
mod Tests
use abel_os.Base.{
  ℕ, ◌+◌, ◌-◌, ◌/◌, ◌%◌, Bool, true, false, ◌&&◌, List, [], ◌∷◌, ◌++◌, Option, none, some, ltb, leb,
  ◌==◌, if◌then◌else◌, u32, sub32,
}

pub record Block : Type 0 where
  pub addr : ℕ
  pub size : ℕ

abbrev pub Blocks : Type 0
Blocks = List Block

pub record Heap : Type 0 where
  pub free : Blocks
  pub used : Blocks

abbrev pub min_allocation_size : ℕ
min_allocation_size = 16

-- `sizeof(struct kobject_header)`
abbrev pub header : ℕ
header = 8

-- What `kobject_free_init` makes of a new page.
abbrev pub page_block : ℕ → Block
page_block page = record { addr = page; size = 4096 - 8 }

-- The first two tests of `kalloc`; the increment wraps around.
pub normalize : ℕ → ℕ
normalize n =
    let n' = if ltb n min_allocation_size then min_allocation_size else n in
    if n' % 2 == 0 then n' else u32 (n' + 1)

-- The search of `kalloc`: the first block with room, between those before and those behind it.
pub find_fit : ℕ → Blocks → Option (Blocks × Block × Blocks)
find_fit need [] = none
find_fit need (b ∷ bs) =
    let rest = find_fit need bs in
    if leb need b.size
    then some ([], b, bs)
    else elim rest [ none ↦ none | some (before, found, after) ↦ some (b ∷ before, found, after) ]

-- The loops that look for the place of an address: the blocks below it, and the others.
pub place : ℕ → Blocks → Blocks × Blocks
place addr [] = ([], [])
place addr (b ∷ bs) =
    let (before, after) = place addr bs in
    if ltb b.addr addr then (b ∷ before, after) else ([], b ∷ bs)

-- `null` is the result 0 with no change; `fault` is a write to the address 0, which is not mapped;
-- `overlap` is a split whose second header lies over the first one.
pub data Allocation : Type 0 where
  null fault overlap : Allocation
  block : ℕ → Heap → Allocation

-- The part of `kalloc` behind the search, `need` being `n + sizeof(struct kobject_header)`.
pub carve : (n need : ℕ) → (before : Blocks) → Block → (after used : Blocks) → Allocation
carve n need before b after used =
    if ltb b.size (u32 (need + 16))
    then block (u32 (b.addr + 8))
        (record { free = before ++ after; used = record { addr = b.addr; size = b.size } ∷ used })
    else if ltb need header
    then overlap
    else block (u32 (b.addr + 8)) (record {
      free = before ++ (record { addr = u32 (b.addr + need); size = sub32 b.size need } ∷ after);
      used = record { addr = b.addr; size = n } ∷ used;
    })

-- The search; `extra` is what `vmm_alloc_page` returns if no block has room.
unfoldable pub search_free : (n need extra : ℕ) → Heap → Allocation
search_free n need extra h = elim (find_fit need h.free) [
  | some (before, b, after) ↦ carve n need before b after h.used
  | none ↦
      if extra == 0
      then fault
      else let (before, after) = place extra h.free in
        carve n need before (page_block extra) after h.used
]

abbrev pub is_nil : Blocks → Bool
is_nil [] = true
is_nil (b ∷ bs) = false

-- `first` is what `vmm_alloc_page` returns if the free list is empty.
unfoldable pub kalloc : (first extra n : ℕ) → Heap → Allocation
kalloc first extra n h =
    let n' = normalize n in
    let need = u32 (n' + header) in
    if ltb 4096 need
    then null
    else if is_nil h.free
    then if first == 0
      then fault
      else search_free n' need extra (record h { free = page_block first ∷ [] })
    else search_free n' need extra h

-- The test of `k_try_collide`: the second block starts where the first one ends, in its page.
pub touch : Block → Block → Bool
touch b c = u32 (b.size + b.addr + header) == c.addr && (b.addr / 4096 == c.addr / 4096)

abbrev pub joined : Block → Block → Block
joined b c = record b { size = u32 (b.size + c.size + header) }

-- `k_try_collide` on a block and the list behind it.
pub try_collide : Block → Blocks → Block × Blocks
try_collide b [] = (b, [])
try_collide b (c ∷ cs) = if touch b c then (joined b c, cs) else (b, c ∷ cs)

abbrev pub is_page : Block → Bool
is_page b = b.size == 4096 - 8

-- The last branch of `kfree`: `prev` is the last block below the freed one, `front` those below it.
-- A whole page is given back; it is taken off the list only if some block links to it.
pub with_prev : (front : Blocks) → Block → Block → Blocks → Blocks × List ℕ
with_prev front prev b after =
    let (prev', rest) = try_collide prev (b ∷ after) in
    if is_page prev'
    then (if is_nil front then prev' ∷ rest else front ++ rest, prev'.addr ∷ [])
    else (front ++ (prev' ∷ rest), [])

abbrev pub split_last : Blocks → Option (Blocks × Block)
split_last [] = none
split_last (b ∷ bs) = elim (split_last bs) [
  | none ↦ some ([], b)
  | some (front, last) ↦ some (b ∷ front, last)
]

-- `kfree` from the insertion of the block on: the new list, and the pages that are given back.
pub insert_free : Block → Blocks → Blocks × List ℕ
insert_free hdr free =
    let (before, after) = place hdr.addr free in
    let (b, rest) = try_collide hdr after in
    if is_page b then (before ++ rest, b.addr ∷ []) else elim (split_last before) [
      | none ↦ (b ∷ rest, [])
      | some (front, prev) ↦ with_prev front prev b rest
    ]

-- The block with the address, and the blocks without it.
pub take_at : ℕ → Blocks → Option (Block × Blocks)
take_at a [] = none
take_at a (b ∷ bs) =
    let rest = take_at a bs in
    if b.addr == a
    then some (b, bs)
    else elim rest [ none ↦ none | some (found, others) ↦ some (found, b ∷ others) ]

-- The heap and the pages that are given back. `none` where the word before the pointer is that of
-- no block: the code acts on whatever stands there.
pub kfree : ℕ → Heap → Option (Heap × List ℕ)
kfree ptr h = if ptr == 0 then some (h, []) else elim (take_at (sub32 ptr header) h.used) [
  | some (hdr, others) ↦
      let (free, pages) = insert_free hdr h.free in
      some (record { free = free; used = others }, pages)
  | none ↦ elim (take_at (sub32 ptr header) h.free) [ none ↦ none | some _ ↦ some (h, []) ]
]
