-- ===== src/Kalloc/Insert.antt =====
-- `k_try_collide`, and the insertion of a freed block into the list.
use abel_os.Base.{
  ℕ, Bool, ◌+◌, ◌/◌, ◌%◌, ◌≡◌, refl, sym, ap, true, List, [], ◌∷◌, ◌++◌, Option, none, some, arith,
  ◌⊎◌, inl, inr, Bool-cases, ==_iff, u32,
}
use mathlib.Core.List.{append_assoc}
use mathlib.Core.Path.{subst}
use abel_os.Kalloc.{
  Block, Blocks, header, page_block, place, touch, joined, try_collide, is_nil, is_page, with_prev,
  split_last, insert_free,
}
use abel_os.Kalloc.Blocks.{
  AllIn, end_of, IsBlock, Apart, AreBlocks, AllApart, Ordered, Coarser, Coarser-refl, Coarser-trans,
  Coarser-append, Coarser-drop, Ordered-AllApart,
}
use abel_os.Kalloc.Alloc.{empty}
use abel_os.Kalloc.Carve.{AllApart-middle, AreBlocks-middle}

touch_lem :
    (b c : Block)
    → IsBlock b
    → IsBlock c
    → touch b c ≡ true
    → (end_of b ≡ c.addr) × (b.addr % 4096 + 8 + b.size ≡ c.addr % 4096)
unfolding touch
touch_lem b c v w t =
    let low = v.low in
    let in_page = v.in_page in
    let pos = w.not_null in
    let meet : u32 (b.size + b.addr + header) ≡ c.addr = ground arith in
    let page : b.addr / 4096 ≡ c.addr / 4096 = ground arith in
    let exact : end_of b ≡ c.addr = omega arith in (exact, omega arith)

joined-IsBlock :
    (b c : Block)
    → IsBlock b
    → IsBlock c
    → touch b c ≡ true
    → IsBlock (joined b c) × (end_of (joined b c) ≡ end_of c)
joined-IsBlock b c v w t =
    let (exact, offset) = touch_lem b c v w t in
    let low = v.low in
    let in_page = w.in_page in
    let even1 = v.even_size in
    let even2 = w.even_size in
    (
      record {
        in_page = omega arith;
        low = low;
        not_null = v.not_null;
        even_addr = v.even_addr;
        even_size = omega arith;
      },
      omega arith,
    )

-- Two blocks that touch become one, and nothing that was apart from both meets it.
try_collide-Coarser :
    (b : Block) (cs : Blocks) → Coarser (b ∷ cs) ((try_collide b cs).0 ∷ (try_collide b cs).1)
unfolding try_collide
try_collide-Coarser b [] = Coarser-refl (b ∷ [])
try_collide-Coarser b (c ∷ cs) = elim (Bool-cases (touch b c)) [
  | inr apart ↦ rw apart (Coarser-refl (b ∷ (c ∷ cs)))
  | inl t ↦ rw t (record {
    ordered = λ lo w h.
        let (v, end) = joined-IsBlock b c w.0 w.1.0 t in
        (h.0, subst (λ e. Ordered e cs) (sym end) h.1.1);
    blocks = λ w. ((joined-IsBlock b c w.0 w.1.0 t).0, w.1.1);
    apart = λ x w h.
        let (v, end) = joined-IsBlock b c w.0 w.1.0 t in
        let (exact, offset) = touch_lem b c w.0 w.1.0 t in
        (Apart-joined x b c exact end h.0 h.1.0, h.1.1);
    pages = λ test w h. (h.0, h.1.1);
  })
]
  where
    Apart-joined :
        (x b c : Block)
        → end_of b ≡ c.addr
        → end_of (joined b c) ≡ end_of c
        → Apart x b
        → Apart x c
        → Apart x (joined b c)
    Apart-joined x b c exact end (inl h) k = inl h
    Apart-joined x b c exact end (inr h) (inl k) = absurd (omega arith)
    Apart-joined x b c exact end (inr h) (inr k) = inr (omega arith)

abbrev LastOf : Blocks → Option (Blocks × Block) → Type 0
LastOf bs none = bs ≡ []
LastOf bs (some (front, last)) = bs ≡ front ++ (last ∷ [])

split_last_lem : (bs : Blocks) → LastOf bs (split_last bs)
split_last_lem [] = refl
split_last_lem (b ∷ bs) = extend (split_last bs) (split_last_lem bs)
  where
    extend :
        (r : Option (Blocks × Block))
        → LastOf bs r
        → LastOf
            (b ∷ bs)
            (elim r [ none ↦ some ([], b) | some (front, last) ↦ some (b ∷ front, last) ])
    extend none h = ap (λ l. b ∷ l) h
    extend (some (front, last)) h = ap (λ l. b ∷ l) h

-- The pages that are given back lie where the list had blocks; they are off the new list, or the
-- first block of it is such a page.
abbrev pub GivesBack : Blocks → Blocks → List ℕ → Type 0
GivesBack old new [] = Unit {0}
GivesBack old new (p ∷ ps) =
    (((x : Block) → AreBlocks old → AllApart x old → Apart x (page_block p))
      × (AreBlocks old
          → Ordered 0 old
          → AllApart (page_block p) new ⊎ ((rest : Blocks) × (new ≡ page_block p ∷ rest)))
      × ((test : ℕ → Bool)
          → AreBlocks old
          → AllIn test old
          → IsBlock (page_block p) × (test (p / 4096) ≡ true)))
    × GivesBack old new ps

AllIn-middle :
    (test : ℕ → Bool) (before : Blocks) (b : Block) (after : Blocks)
    → AllIn test (before ++ (b ∷ after))
    → test (b.addr / 4096) ≡ true
AllIn-middle test [] b after h = h.0
AllIn-middle test (c ∷ cs) b after h = AllIn-middle test cs b after h.1

page_lem : (b : Block) → is_page b ≡ true → b ≡ page_block b.addr
page_lem b h = ap (λ n. record { addr = b.addr; size = n }) ((==_iff b.size 4088).0 h)

-- A list with a whole page in it, that is given back and taken off.
drop_page :
    (old before : Blocks) (b : Block) (after : Blocks)
    → Coarser old (before ++ (b ∷ after))
    → is_page b ≡ true
    → Coarser old (before ++ after) × GivesBack old (before ++ after) (b.addr ∷ [])
drop_page old before b after c page =
    let same = page_lem b page in
    (
      Coarser-trans old (before ++ (b ∷ after)) (before ++ after) c
          (Coarser-append before (b ∷ after) after (Coarser-drop b after)),
      (
        (
          (λ x w h. subst (λ q. Apart x q) same (AllApart-middle x before b after (c.apart x w h))),
          (λ w o. inl (
              subst (λ q. AllApart q (before ++ after)) same
                (Ordered-AllApart 0 before b after (c.ordered 0 w o)))),
          (λ test w h. (
            subst IsBlock same (AreBlocks-middle before b after (c.blocks w)),
            AllIn-middle test before b after (c.pages test w h),
          )),
        ),
        tt,
      ),
    )

abbrev pub Freed : Blocks → Blocks × List ℕ → Type 0
Freed old (new, pages) = Coarser old new × GivesBack old new pages

with_prev-Freed :
    (old front : Blocks) (prev b : Block) (after : Blocks)
    → Coarser old (front ++ (prev ∷ (b ∷ after)))
    → Freed old (with_prev front prev b after)
unfolding with_prev
with_prev-Freed old front prev b after c =
    let (prev', rest) = try_collide prev (b ∷ after) in
    let c' : Coarser old (front ++ (prev' ∷ rest)) =
      Coarser-trans old (front ++ (prev ∷ (b ∷ after))) (front ++ (prev' ∷ rest)) c (
        Coarser-append front (prev ∷ (b ∷ after)) (prev' ∷ rest)
          (try_collide-Coarser prev (b ∷ after))) in
    elim (Bool-cases (is_page prev')) [
      | inr part ↦ rw part (c', tt)
      | inl page ↦ elim (Bool-cases (is_nil front)) [
        | inr more ↦ rw (page, more) (drop_page old front prev' rest c' page)
        | inl first ↦
            let same = page_lem prev' page in
            let c'' : Coarser old (prev' ∷ rest) =
              subst (λ l. Coarser old (l ++ (prev' ∷ rest))) (empty front first) c' in
            rw (page, first)
              (
                c'',
                (
                  (
                    (λ x w h. subst (λ q. Apart x q) same (c''.apart x w h).0),
                    (λ w o. inr (rest, ap (λ q. q ∷ rest) same)),
                    (λ test w h. (subst IsBlock same (c''.blocks w).0, (c''.pages test w h).0)),
                  ),
                  tt,
                ),
              )
      ]
    ]

pub insert_free-Freed :
    (hdr : Block) (free : Blocks)
    → Freed ((place hdr.addr free).0 ++ (hdr ∷ (place hdr.addr free).1)) (insert_free hdr free)
unfolding insert_free
insert_free-Freed hdr free =
    let (before, after) = place hdr.addr free in
    let (b, rest) = try_collide hdr after in
    let old = before ++ (hdr ∷ after) in
    let c : Coarser old (before ++ (b ∷ rest)) =
      Coarser-append before (hdr ∷ after) (b ∷ rest) (try_collide-Coarser hdr after) in
    elim (Bool-cases (is_page b)) [
      | inl page ↦ rw page (drop_page old before b rest c page)
      | inr part ↦ rw part (behind old before b rest c (split_last before) (split_last_lem before))
    ]
  where
    behind :
        (old before : Blocks) (b : Block) (rest : Blocks)
        → Coarser old (before ++ (b ∷ rest))
        → (r : Option (Blocks × Block)) → LastOf before r
        → Freed old
            (elim r [ none ↦ (b ∷ rest, []) | some (front, prev) ↦ with_prev front prev b rest ])
    behind old before b rest c none h = (subst (λ l. Coarser old (l ++ (b ∷ rest))) h c, tt)
    behind old before b rest c (some (front, prev)) h = with_prev-Freed old front prev b rest (
        subst (λ l. Coarser old l) (append_assoc front (prev ∷ []) (b ∷ rest))
          (subst (λ l. Coarser old (l ++ (b ∷ rest))) h c))
