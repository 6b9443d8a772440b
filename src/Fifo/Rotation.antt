-- ===== src/Fifo/Rotation.antt =====
-- `sched_fifo_next` and `sched_fifo_tick` from any entry of the list.
use mathlib.Core.List.{map, append_assoc}
use abel_os.Base.{
  ℕ, zero, suc, ◌≡◌, refl, false, List, [], ◌∷◌, ◌++◌, Option, none, some, arith, ◌==◌,
  if◌then◌else◌, length, leb,
}
use abel_os.Fifo.{Entry, Procs, after, head_proc, next, tick, max_proc_quantum}
use abel_os.Fifo.Lookup.{AreDistinct, load-middle, get_by_pid-middle, middle_ne_null}

after-middle :
    (xs : Procs) (e : Entry) (ys : Procs)
    → after (xs ++ e ∷ ys) (e ∷ ys) ≡ head_proc (ys ++ (xs ++ (e ∷ [])))
unfolding after
after-middle xs e [] = refl
after-middle xs e (y ∷ ys) = refl

-- In a list of distinct entries, from the block of any entry the next one is that of the following entry, and behind the last
-- entry that of the first: the head of the list turned round to just behind the entry.
pub next-rotates :
    (xs : Procs) (e : Entry) (ys : Procs)
    → AreDistinct (xs ++ e ∷ ys)
    → next e.proc (xs ++ e ∷ ys) ≡ some (head_proc (ys ++ (xs ++ (e ∷ []))))
unfolding next
next-rotates xs e ys d =
    let live : (e.proc == 0) ≡ false = (let ne = middle_ne_null xs e ys d in ground arith) in
    rw (live, load-middle xs e ys d, get_by_pid-middle xs e ys d, after-middle xs e ys)

-- From null on, the first one.
pub next-null : (procs : Procs) → next 0 procs ≡ some (head_proc procs)
unfolding next
next-null procs = refl

-- `sched_fifo_tick` on the running process: 1 from the end of its quantum on.
pub tick-middle :
    (xs : Procs) (e : Entry) (ys : Procs)
    → AreDistinct (xs ++ e ∷ ys)
    → tick e.proc (xs ++ e ∷ ys) ≡ (if leb max_proc_quantum e.pcb.runtime then some 1 else some 0)
unfolding tick
tick-middle xs e ys d =
    let live : (e.proc == 0) ≡ false = (let ne = middle_ne_null xs e ys d in ground arith) in
    rw (live, load-middle xs e ys d, get_by_pid-middle xs e ys d)

-- The blocks that `n` calls hand out one after the other, from the block at `p` on.
pub turns : Procs → ℕ → ℕ → Option (List ℕ)
turns procs zero p = some []
turns procs (suc n) p = elim (next p procs) [
  | none ↦ none
  | some q ↦ elim (turns procs n q) [ none ↦ none | some qs ↦ some (q ∷ qs) ]
]

abbrev pub procs_of : Procs → List ℕ
procs_of es = map (λ e. e.proc) es

turns-suc :
    (procs : Procs) (n p q : ℕ) (qs : List ℕ)
    → next p procs ≡ some q
    → turns procs n q ≡ some qs
    → turns procs (suc n) p ≡ some (q ∷ qs)
unfolding turns
turns-suc procs n p q qs e h = rw (e, turns) (rw (h, turns))

turns-zero : (procs : Procs) (p : ℕ) → turns procs 0 p ≡ some []
unfolding turns
turns-zero procs p = refl

turns-rest :
    (xs : Procs) (e : Entry) (ys : Procs)
    → AreDistinct (xs ++ e ∷ ys)
    → turns (xs ++ e ∷ ys) (suc (length ys)) e.proc
      ≡ some (procs_of ys ++ (head_proc (xs ++ e ∷ ys) ∷ []))
turns-rest xs e [] d =
    turns-suc _ 0 e.proc (head_proc (xs ++ e ∷ [])) [] (next-rotates xs e [] d) (turns-zero _ _)
turns-rest xs e (y ∷ ys) d =
    let split : (xs ++ e ∷ []) ++ y ∷ ys ≡ xs ++ e ∷ (y ∷ ys) = append_assoc xs (e ∷ []) (y ∷ ys) in
    let d' : AreDistinct ((xs ++ e ∷ []) ++ y ∷ ys) = rw split d in
    turns-suc (xs ++ e ∷ (y ∷ ys)) (suc (length ys)) e.proc y.proc _ (next-rotates xs e (y ∷ ys) d)
      (rw split at (turns-rest (xs ++ e ∷ []) y ys d'))

-- A round robin on a list of distinct entries: one call for each entry hands out every block once, in list order from the entry
-- behind the first on, and comes back to the first.
pub turns_round :
    (e : Entry) (es : Procs)
    → AreDistinct (e ∷ es)
    → turns (e ∷ es) (length (e ∷ es)) e.proc ≡ some (procs_of es ++ (e.proc ∷ []))
turns_round e es d = turns-rest [] e es d
