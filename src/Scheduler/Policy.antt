-- ===== src/Scheduler/Policy.antt =====
-- The scheduler's state over the first-in first-out list: which block runs, and updates of it.
use mathlib.Core.List.{append_assoc}
use abel_os.Base.{ℕ, ◌≡◌, ◌≢◌, refl, sym, ◌∙◌, false, [], ◌∷◌, ◌++◌, arith, ◌==◌, ==_refl}
use abel_os.Fifo.{Pcb, Entry, Procs, head_proc}
use abel_os.Fifo.Lookup.{NoId, NoProc, AreDistinct, NoProc-middle}
use abel_os.Scheduler.{store}

-- A list with one entry's block changed.
abbrev pub with_block : Entry → (Pcb → Pcb) → Entry
with_block e f = record e { pcb = f e.pcb }

pub store-middle :
    (f : Pcb → Pcb) (xs : Procs) (e : Entry) (ys : Procs)
    → AreDistinct (xs ++ e ∷ ys)
    → store e.proc f (xs ++ e ∷ ys) ≡ xs ++ with_block e f ∷ ys
unfolding store
store-middle f [] e ys d = rw (==_refl e.proc)
store-middle f (x ∷ xs) e ys d =
    let ne = NoProc-middle xs e ys d.1 in
    let other : (x.proc == e.proc) ≡ false = ground arith in rw (other, store-middle f xs e ys d.3)

NoProc-with :
    (a : ℕ) (f : Pcb → Pcb) (xs : Procs) (e : Entry) (ys : Procs)
    → NoProc a (xs ++ e ∷ ys)
    → NoProc a (xs ++ with_block e f ∷ ys)
NoProc-with a f [] e ys h = h
NoProc-with a f (x ∷ xs) e ys h = (h.0, NoProc-with a f xs e ys h.1)

NoId-with :
    (pid : ℕ) (f : Pcb → Pcb) (xs : Procs) (e : Entry) (ys : Procs)
    → (f e.pcb).id ≡ e.pcb.id
    → NoId pid (xs ++ e ∷ ys)
    → NoId pid (xs ++ with_block e f ∷ ys)
NoId-with pid f [] e ys same h = ((λ p. h.0 (sym same ∙ p)), h.1)
NoId-with pid f (x ∷ xs) e ys same h = (h.0, NoId-with pid f xs e ys same h.1)

-- An update that keeps the pid keeps the entries distinct.
pub AreDistinct-with :
    (f : Pcb → Pcb) (xs : Procs) (e : Entry) (ys : Procs)
    → (f e.pcb).id ≡ e.pcb.id
    → AreDistinct (xs ++ e ∷ ys)
    → AreDistinct (xs ++ with_block e f ∷ ys)
AreDistinct-with f [] e ys same d = (d.0, d.1, rw same d.2, d.3)
AreDistinct-with f (x ∷ xs) e ys same d = (
  d.0,
  NoProc-with x.proc f xs e ys d.1,
  NoId-with x.pcb.id f xs e ys same d.2,
  AreDistinct-with f xs e ys same d.3,
)

AreDistinct-behind : (xs zs : Procs) → AreDistinct (xs ++ zs) → AreDistinct zs
AreDistinct-behind [] zs d = d
AreDistinct-behind (x ∷ xs) zs d = AreDistinct-behind xs zs d.3

head_proc-front : (zs ys : Procs) → zs ≢ [] → head_proc (zs ++ ys) ≡ head_proc zs
head_proc-front [] ys h = absurd (h refl)
head_proc-front (z ∷ zs) ys h = refl

module _ (xs : Procs) (e : Entry) (ys : Procs) (others : ys ++ xs ≢ []) where
  -- With another process in the list, the next one is the first of the others.
  pub next_of_others : head_proc (ys ++ (xs ++ (e ∷ []))) ≡ head_proc (ys ++ xs)
  next_of_others = rw (← append_assoc ys xs (e ∷ [])) (head_proc-front (ys ++ xs) (e ∷ []) others)

pub others_differ :
    (xs : Procs) (e : Entry) (ys : Procs)
    → AreDistinct (xs ++ e ∷ ys)
    → ys ++ xs ≢ []
    → head_proc (ys ++ xs) ≢ e.proc
others_differ [] e [] d others = absurd (others refl)
others_differ (x ∷ xs) e [] d others = λ p. NoProc-middle xs e [] d.1 (sym p)
others_differ xs e (y ∷ ys) d others = (AreDistinct-behind xs (e ∷ y ∷ ys) d).1.0
