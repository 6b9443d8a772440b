-- ===== src/Kernel/Linked.antt =====
-- The process list as blocks of the heap.
use abel_os.Base.{ℕ, ◌+◌, ◌≡◌, ◌≢◌, [], ◌∷◌, arith, ◌⊎◌, inl, inr}
use abel_os.Kalloc.{Block, Blocks}
use abel_os.Kalloc.Blocks.{AllApart}
use abel_os.Fifo.{Entry, Procs, link}
use abel_os.Fifo.Lookup.{NoProc}

-- The pointer is that of a block.
abbrev pub IsPointer : ℕ → Blocks → Type 0
IsPointer p [] = ⊥
IsPointer p (b ∷ bs) = (p ≡ b.addr + 8) ⊎ IsPointer p bs

-- The process control blocks and the nodes are in use.
abbrev pub AreLinked : Blocks → Procs → Type 0
AreLinked used [] = Unit {0}
AreLinked used (e ∷ es) = IsPointer e.proc used × IsPointer e.node used × AreLinked used es

pub AreLinked-cons :
    (b : Block) (used : Blocks) (es : Procs) → AreLinked used es → AreLinked (b ∷ used) es
AreLinked-cons b used [] l = tt
AreLinked-cons b used (e ∷ es) l = (inr l.0, inr l.1, AreLinked-cons b used es l.2)

pub AreLinked-link :
    (used : Blocks) (e : Entry) (es : Procs)
    → IsPointer e.proc used
    → IsPointer e.node used
    → AreLinked used es
    → AreLinked used (link e es)
unfolding link
AreLinked-link used e [] p q l = (p, q, tt)
AreLinked-link used e (f ∷ fs) p q l = (l.0, l.1, (p, q, l.2))

IsPointer-Apart :
    (b : Block) (p : ℕ) (used : Blocks) → AllApart b used → IsPointer p used → p ≢ b.addr + 8
IsPointer-Apart b p [] apart h e = h
IsPointer-Apart b p (c ∷ cs) apart (inl at) e = elim apart.0 [
  | inl low ↦ absurd (omega arith)
  | inr high ↦ absurd (omega arith)
]
IsPointer-Apart b p (c ∷ cs) apart (inr h) e = IsPointer-Apart b p cs apart.1 h e

-- A block that `kalloc` gives out is none of the list.
pub NoProc-Apart :
    (b : Block) (used : Blocks) (es : Procs)
    → AllApart b used
    → AreLinked used es
    → NoProc (b.addr + 8) es
NoProc-Apart b used [] apart l = tt
NoProc-Apart b used (e ∷ es) apart l =
    (IsPointer-Apart b e.proc used apart l.0, NoProc-Apart b used es apart l.2)
