-- ===== src/Fifo/Change.antt =====
-- What `sched_fifo_enqueue` and `sched_fifo_dequeue` do to the list.
use abel_os.Base.{
  ℕ, ◌≡◌, ◌≢◌, refl, sym, false, [], ◌∷◌, ◌++◌, Option, none, some, arith, ◌==◌, inl, inr,
  Bool-cases, ==_refl, ◌⊎◌,
}
use abel_os.Fifo.{Pcb, Entry, Procs, link, enqueue, unlink, dequeue}
use abel_os.Fifo.Lookup.{NoId, NoProc, AreDistinct, NoId-middle}

abbrev pub entry : ℕ → ℕ → Pcb → Entry
entry copy node p = record { node = node; proc = copy; pcb = p }

-- With memory for both objects `sched_fifo_enqueue` succeeds, and its copy of the block stands
-- behind the first entry, in front of all others.
pub enqueue-cons :
    (copy node : ℕ) (p : Pcb) (first : Entry) (es : Procs)
    → copy ≢ 0
    → node ≢ 0
    → enqueue copy node (some p) (first ∷ es) ≡ (0, first ∷ entry copy node p ∷ es)
unfolding enqueue link
enqueue-cons copy node p first es hc hn =
    let c : (copy == 0) ≡ false = ground arith in
    let n : (node == 0) ≡ false = ground arith in rw (c, n)

-- Without memory, or for a null pointer, it fails and leaves the list as it was.
pub enqueue-fails :
    (copy node : ℕ) (p : Option Pcb) (es : Procs)
    → (copy ≡ 0) ⊎ ((node ≡ 0) ⊎ (p ≡ none))
    → enqueue copy node p es ≡ (1, es)
unfolding enqueue
enqueue-fails copy node none es h = refl
enqueue-fails copy node (some p) es h = ground arith

-- A copy with a new address and a new pid keeps the entries distinct, with memory or without.
pub enqueue-AreDistinct :
    (copy node : ℕ) (p : Pcb) (es : Procs)
    → AreDistinct es
    → NoProc copy es
    → NoId p.id es
    → AreDistinct (enqueue copy node (some p) es).1
unfolding enqueue link
enqueue-AreDistinct copy node p es d na ni = elim (Bool-cases (copy == 0)) [
  | inl no_copy ↦ rw no_copy d
  | inr c ↦ elim (Bool-cases (node == 0)) [
    | inl no_node ↦ rw (c, no_node) d
    | inr n ↦ rw (c, n) (linked (ground arith) es d na ni)
  ]
]
  where
    linked :
        copy ≢ 0
        → (fs : Procs) → AreDistinct fs
        → NoProc copy fs
        → NoId p.id fs
        → AreDistinct (link (entry copy node p) fs)
    linked live [] d na ni = (live, tt, tt, tt)
    linked live (first ∷ fs) d na ni =
        (d.0, ((λ e. na.0 (sym e)), d.1), ((λ e. ni.0 (sym e)), d.2), (live, na.1, ni.1, d.3))

-- Dropping an entry leaves no new pid or address.
NoId-drop :
    (pid : ℕ) (xs : Procs) (e : Entry) (ys : Procs) → NoId pid (xs ++ e ∷ ys) → NoId pid (xs ++ ys)
NoId-drop pid [] e ys h = h.1
NoId-drop pid (x ∷ xs) e ys h = (h.0, NoId-drop pid xs e ys h.1)

NoProc-drop :
    (a : ℕ) (xs : Procs) (e : Entry) (ys : Procs) → NoProc a (xs ++ e ∷ ys) → NoProc a (xs ++ ys)
NoProc-drop a [] e ys h = h.1
NoProc-drop a (x ∷ xs) e ys h = (h.0, NoProc-drop a xs e ys h.1)

pub AreDistinct-drop :
    (xs : Procs) (e : Entry) (ys : Procs) → AreDistinct (xs ++ e ∷ ys) → AreDistinct (xs ++ ys)
AreDistinct-drop [] e ys d = d.3
AreDistinct-drop (x ∷ xs) e ys d = (
  d.0,
  NoProc-drop x.proc xs e ys d.1,
  NoId-drop x.pcb.id xs e ys d.2,
  AreDistinct-drop xs e ys d.3,
)

unlink-middle :
    (xs : Procs) (e : Entry) (ys : Procs)
    → AreDistinct (xs ++ e ∷ ys)
    → unlink e.pcb.id (xs ++ e ∷ ys) ≡ some (xs ++ ys, e.proc ∷ e.node ∷ [])
unfolding unlink
unlink-middle [] e ys d = rw (==_refl e.pcb.id)
unlink-middle (x ∷ xs) e ys d =
    let ne = NoId-middle xs e ys d.2 in
    let other : (x.pcb.id == e.pcb.id) ≡ false = ground arith in
    rw (other, unlink-middle xs e ys d.3)

unlink-none : (pid : ℕ) (es : Procs) → NoId pid es → unlink pid es ≡ none
unfolding unlink
unlink-none pid [] h = refl
unlink-none pid (e ∷ es) h =
    let ne = h.0 in
    let other : (e.pcb.id == pid) ≡ false = ground arith in rw (other, unlink-none pid es h.1)

-- In a list of distinct entries, dequeuing the pid of an entry takes that entry out, keeps the others in order and distinct, and
-- frees the entry's block and node.
pub dequeue-middle :
    (xs : Procs) (e : Entry) (ys : Procs)
    → AreDistinct (xs ++ e ∷ ys)
    → let r = dequeue e.pcb.id (xs ++ e ∷ ys) in
      (r.status ≡ 0) × (r.procs ≡ xs ++ ys) × (r.freed ≡ e.proc ∷ e.node ∷ []) × AreDistinct r.procs
unfolding dequeue
dequeue-middle xs e ys d =
    rw (unlink-middle xs e ys d, dequeue) (refl, refl, refl, AreDistinct-drop xs e ys d)

pub dequeue-eq :
    (xs : Procs) (e : Entry) (ys : Procs)
    → AreDistinct (xs ++ e ∷ ys)
    → dequeue e.pcb.id (xs ++ e ∷ ys)
      ≡ record { status = 0; procs = xs ++ ys; freed = e.proc ∷ e.node ∷ [] }
dequeue-eq xs e ys d =
    let (a, b, c, _) = dequeue-middle xs e ys d in
    λ i. record { status = a i; procs = b i; freed = c i }

-- Dequeuing an unknown pid fails, changes nothing and frees nothing.
pub dequeue-unknown :
    (pid : ℕ) (es : Procs)
    → NoId pid es
    → dequeue pid es ≡ record { status = 1; procs = es; freed = [] }
unfolding dequeue
dequeue-unknown pid es h = rw (unlink-none pid es h, dequeue)
