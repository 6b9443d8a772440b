-- ===== src/Scheduler/Pids.antt =====
-- Process identifiers in scheduler_add_process and scheduler_kill_process.
use abel_os.Base.{
  ℕ, ◌+◌, ◌<◌, ◌^◌, ◌≡◌, [], ◌∷◌, ◌++◌, some, arith, ◌==◌, inl, inr, Bool-cases, u32,
}
use abel_os.Fifo.{Pcb, Entry, Procs, link, enqueue, ready, proc_ok}
use abel_os.Fifo.Lookup.{NoId, NoProc, AreDistinct}
use abel_os.Fifo.Change.{entry, enqueue-AreDistinct, AreDistinct-drop, dequeue-eq}
use abel_os.Scheduler.{fifo_ops, Sched, free_objects, add_process, kill_process}

-- Every pid of the list was handed out.
abbrev pub AreBelow : ℕ → Procs → Type 0
AreBelow n [] = Unit {0}
AreBelow n (e ∷ es) = (e.pcb.id < n) × AreBelow n es

abbrev pub IsSched : Sched → Type 0
IsSched s = AreDistinct s.procs × AreBelow s.last_pid s.procs

NoId-fresh : (n : ℕ) (es : Procs) → AreBelow n es → NoId n es
NoId-fresh n [] h = tt
NoId-fresh n (e ∷ es) h = let lt = h.0 in (ground arith, NoId-fresh n es h.1)

AreBelow-grow : (n : ℕ) (es : Procs) → AreBelow n es → AreBelow (n + 1) es
AreBelow-grow n [] h = tt
AreBelow-grow n (e ∷ es) h = let lt = h.0 in (ground arith, AreBelow-grow n es h.1)

pub AreBelow-drop :
    (n : ℕ) (xs : Procs) (e : Entry) (ys : Procs)
    → AreBelow n (xs ++ e ∷ ys)
    → AreBelow n (xs ++ ys)
AreBelow-drop n [] e ys h = h.1
AreBelow-drop n (x ∷ xs) e ys h = (h.0, AreBelow-drop n xs e ys h.1)

AreBelow-enqueue :
    (n copy node : ℕ) (p : Pcb) (es : Procs)
    → p.id < n
    → AreBelow n es
    → AreBelow n (enqueue copy node (some p) es).1
unfolding enqueue link
AreBelow-enqueue n copy node p es lt h = elim (Bool-cases (copy == 0)) [
  | inl no_copy ↦ rw no_copy h
  | inr c ↦ elim (Bool-cases (node == 0)) [
    | inl no_node ↦ rw (c, no_node) h
    | inr m ↦ rw (c, m) (linked es h)
  ]
]
  where
    linked : (fs : Procs) → AreBelow n fs → AreBelow n (link (entry copy node p) fs)
    linked [] h = (lt, tt)
    linked (f ∷ fs) h = (h.0, (lt, h.1))

-- In a well-formed scheduler whose counter of pids does not wrap around, adding a process with a new address for its
-- block keeps every pid of the list one of its own, below the counter, with memory or without.
pub add_process-IsSched :
    (copy node stack priority : ℕ) (s : Sched)
    → IsSched s
    → s.last_pid + 1 < 2 ^ 32
    → NoProc copy s.procs
    → IsSched (add_process fifo_ops copy node stack priority s)
unfolding add_process
add_process-IsSched copy node stack priority s (d, below) small fresh =
    let p : Pcb = record {
      id = s.last_pid;
      priority = priority;
      stack_ptr = stack;
      flags = proc_ok;
      status = ready;
      runtime = 0;
    } in
    let next : u32 (s.last_pid + 1) ≡ s.last_pid + 1 = ground arith in
    let lt : s.last_pid < s.last_pid + 1 = ground arith in
    (
      enqueue-AreDistinct copy node p s.procs d fresh (NoId-fresh _ s.procs below),
      rw next (AreBelow-enqueue _ copy node p s.procs lt (AreBelow-grow _ s.procs below)),
    )

-- In a well-formed scheduler, killing a listed process takes it from the list, frees its block and its node, and keeps the rest
-- of the list in order and every pid below the counter.
pub kill_process-IsSched :
    (s : Sched) (xs : Procs) (e : Entry) (ys : Procs)
    → s.procs ≡ xs ++ e ∷ ys
    → IsSched s
    → (kill_process fifo_ops e.pcb.id s
        ≡ (record s { procs = xs ++ ys }, free_objects (e.proc ∷ e.node ∷ []) ∷ []))
      × IsSched (kill_process fifo_ops e.pcb.id s).0
unfolding kill_process
kill_process-IsSched s xs e ys eq (d, below) =
    let d' : AreDistinct (xs ++ e ∷ ys) = rw (← eq) d in
    let below' : AreBelow s.last_pid (xs ++ e ∷ ys) = rw (← eq) below in
    let removed = dequeue-eq xs e ys d' in
    (
      rw (eq, removed, kill_process),
      rw (eq, removed, kill_process) (AreDistinct-drop xs e ys d', AreBelow-drop _ xs e ys below'),
    )
