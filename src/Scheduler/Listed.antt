-- ===== src/Scheduler/Listed.antt =====
-- Which blocks are listed, and what the operations on the list keep of its entries.
use abel_os.Base.{
  ℕ, ◌+◌, ◌<◌, ◌^◌, u32, false, ◌≡◌, ◌≢◌, refl, ap, ◌∙◌, [], ◌∷◌, ◌++◌, some, arith, ◌==◌, ◌⊎◌, inl,
  inr, Bool-cases,
}
use abel_os.Fifo.{Pcb, Entry, Procs, proc_ok, ready, link, enqueue, head_proc}
use abel_os.Fifo.Lookup.{NoId}
use abel_os.Fifo.Change.{entry}
use abel_os.Scheduler.{Sched, fifo_ops, add_process}
use abel_os.Scheduler.Policy.{with_block}
use abel_os.Scheduler.Pids.{AreBelow}

-- An entry of the list has its block at the address.
abbrev pub Listed : ℕ → Procs → Type 0
Listed a [] = ⊥
Listed a (e ∷ es) = (e.proc ≡ a) ⊎ Listed a es

-- No block is marked as ending.
abbrev pub AreOk : Procs → Type 0
AreOk [] = Unit {0}
AreOk (e ∷ es) = (e.pcb.flags ≡ proc_ok) × AreOk es

pub Listed-split :
    (a : ℕ) (es : Procs)
    → Listed a es
    → (xs : Procs) × (e : Entry) × (ys : Procs) × (es ≡ xs ++ e ∷ ys) × (e.proc ≡ a)
Listed-split a [] h = elim h [ ]
Listed-split a (e ∷ es) (inl h) = ([], e, es, refl, h)
Listed-split a (e ∷ es) (inr h) =
    let (xs, f, ys, same, at) = Listed-split a es h in (e ∷ xs, f, ys, ap (λ l. e ∷ l) same, at)

pub Listed-middle : (xs : Procs) (e : Entry) (ys : Procs) → Listed e.proc (xs ++ e ∷ ys)
Listed-middle [] e ys = inl refl
Listed-middle (x ∷ xs) e ys = inr (Listed-middle xs e ys)

pub Listed-drop :
    (a : ℕ) (xs : Procs) (e : Entry) (ys : Procs)
    → e.proc ≢ a
    → Listed a (xs ++ e ∷ ys)
    → Listed a (xs ++ ys)
Listed-drop a [] e ys ne (inl h) = absurd (ne h)
Listed-drop a [] e ys ne (inr h) = h
Listed-drop a (x ∷ xs) e ys ne (inl h) = inl h
Listed-drop a (x ∷ xs) e ys ne (inr h) = inr (Listed-drop a xs e ys ne h)

pub Listed-with :
    (a : ℕ) (f : Pcb → Pcb) (xs : Procs) (e : Entry) (ys : Procs)
    → Listed a (xs ++ e ∷ ys)
    → Listed a (xs ++ with_block e f ∷ ys)
Listed-with a f [] e ys h = h
Listed-with a f (x ∷ xs) e ys (inl h) = inl h
Listed-with a f (x ∷ xs) e ys (inr h) = inr (Listed-with a f xs e ys h)

Listed-front : (a : ℕ) (xs ys : Procs) → Listed a xs → Listed a (xs ++ ys)
Listed-front a [] ys h = elim h [ ]
Listed-front a (x ∷ xs) ys (inl h) = inl h
Listed-front a (x ∷ xs) ys (inr h) = inr (Listed-front a xs ys h)

Listed-behind : (a : ℕ) (xs ys : Procs) → Listed a ys → Listed a (xs ++ ys)
Listed-behind a [] ys h = h
Listed-behind a (x ∷ xs) ys h = inr (Listed-behind a xs ys h)

-- The first of the others is one of the list.
pub Listed-head_proc : (xs ys : Procs) → ys ++ xs ≢ [] → Listed (head_proc (ys ++ xs)) (xs ++ ys)
Listed-head_proc [] [] h = absurd (h refl)
Listed-head_proc (x ∷ xs) [] h = inl refl
Listed-head_proc xs (y ∷ ys) h = Listed-behind y.proc xs (y ∷ ys) (inl refl)

pub Listed-insert :
    (a : ℕ) (xs : Procs) (e : Entry) (ys : Procs) → Listed a (xs ++ ys) → Listed a (xs ++ e ∷ ys)
Listed-insert a [] e ys h = inr h
Listed-insert a (x ∷ xs) e ys (inl h) = inl h
Listed-insert a (x ∷ xs) e ys (inr h) = inr (Listed-insert a xs e ys h)

-- A new process stands in the list, or there was no memory and the list is as before.
enqueue-cases :
    (copy node : ℕ) (p : Pcb) (es : Procs)
    → ((enqueue copy node (some p) es).1 ≡ es)
      ⊎ ((enqueue copy node (some p) es).1 ≡ link (entry copy node p) es)
unfolding enqueue
enqueue-cases copy node p es = elim (Bool-cases (copy == 0)) [
  | inl no_copy ↦ rw no_copy (inl refl)
  | inr c ↦ elim (Bool-cases (node == 0)) [
    | inl no_node ↦ rw (c, no_node) (inl refl)
    | inr m ↦ rw (c, m) (inr refl)
  ]
]

Listed-link : (a : ℕ) (e : Entry) (es : Procs) → Listed a es → Listed a (link e es)
unfolding link
Listed-link a e [] h = inr h
Listed-link a e (x ∷ xs) (inl h) = inl h
Listed-link a e (x ∷ xs) (inr h) = inr (inr h)

pub Listed-enqueue :
    (a copy node : ℕ) (p : Pcb) (es : Procs)
    → Listed a es
    → Listed a (enqueue copy node (some p) es).1
Listed-enqueue a copy node p es h = elim (enqueue-cases copy node p es) [
  | inl same ↦ rw same h
  | inr linked ↦ rw linked (Listed-link a (entry copy node p) es h)
]

pub AreOk-middle :
    (xs : Procs) (e : Entry) (ys : Procs) → AreOk (xs ++ e ∷ ys) → e.pcb.flags ≡ proc_ok
AreOk-middle [] e ys h = h.0
AreOk-middle (x ∷ xs) e ys h = AreOk-middle xs e ys h.1

pub AreOk-with :
    (f : Pcb → Pcb) (xs : Procs) (e : Entry) (ys : Procs)
    → (f e.pcb).flags ≡ e.pcb.flags
    → AreOk (xs ++ e ∷ ys)
    → AreOk (xs ++ with_block e f ∷ ys)
AreOk-with f [] e ys same h = (same ∙ h.0, h.1)
AreOk-with f (x ∷ xs) e ys same h = (h.0, AreOk-with f xs e ys same h.1)

pub AreOk-drop : (xs : Procs) (e : Entry) (ys : Procs) → AreOk (xs ++ e ∷ ys) → AreOk (xs ++ ys)
AreOk-drop [] e ys h = h.1
AreOk-drop (x ∷ xs) e ys h = (h.0, AreOk-drop xs e ys h.1)

pub AreOk-link : (e : Entry) (es : Procs) → e.pcb.flags ≡ proc_ok → AreOk es → AreOk (link e es)
unfolding link
AreOk-link e [] ok h = (ok, tt)
AreOk-link e (x ∷ xs) ok h = (h.0, (ok, h.1))

pub AreOk-enqueue :
    (copy node : ℕ) (p : Pcb) (es : Procs)
    → p.flags ≡ proc_ok
    → AreOk es
    → AreOk (enqueue copy node (some p) es).1
AreOk-enqueue copy node p es ok h = elim (enqueue-cases copy node p es) [
  | inl same ↦ rw same h
  | inr linked ↦ rw linked (AreOk-link (entry copy node p) es ok h)
]

pub AreBelow-with :
    (n : ℕ) (f : Pcb → Pcb) (xs : Procs) (e : Entry) (ys : Procs)
    → (f e.pcb).id ≡ e.pcb.id
    → AreBelow n (xs ++ e ∷ ys)
    → AreBelow n (xs ++ with_block e f ∷ ys)
AreBelow-with n f [] e ys same h = let lt = h.0 in (omega (arith, same), h.1)
AreBelow-with n f (x ∷ xs) e ys same h = (h.0, AreBelow-with n f xs e ys same h.1)

-- A pid is that of an entry, or of none.
pub pid-cases :
    (pid : ℕ) (es : Procs)
    → NoId pid es
      ⊎ ((xs : Procs) × (e : Entry) × (ys : Procs) × (es ≡ xs ++ e ∷ ys) × (e.pcb.id ≡ pid))
pid-cases pid [] = inl tt
pid-cases pid (e ∷ es) = elim (Bool-cases (e.pcb.id == pid)) [
  | inl here ↦ let same : e.pcb.id ≡ pid = ground arith in inr ([], e, es, refl, same)
  | inr other ↦
      let ne : e.pcb.id ≢ pid = ground arith in
      elim (pid-cases pid es) [
        | inl unknown ↦ inl (ne, unknown)
        | inr (xs, f, ys, same, at) ↦ inr (e ∷ xs, f, ys, ap (λ l. e ∷ l) same, at)
      ]
]

-- A process that is added with memory for its block and its node.
abbrev pub new_proc : (stack priority : ℕ) → Sched → Pcb
new_proc stack priority s = record {
  id = s.last_pid;
  priority = priority;
  stack_ptr = stack;
  flags = proc_ok;
  status = ready;
  runtime = 0;
}

pub add_process-link :
    (copy node stack priority : ℕ) (s : Sched)
    → copy ≢ 0
    → node ≢ 0
    → s.last_pid + 1 < 2 ^ 32
    → add_process fifo_ops copy node stack priority s ≡ record s {
      procs = link (entry copy node (new_proc stack priority s)) s.procs;
      last_pid = s.last_pid + 1;
    }
unfolding add_process enqueue
add_process-link copy node stack priority s c n small =
    let c' : (copy == 0) ≡ false = ground arith in
    let n' : (node == 0) ≡ false = ground arith in
    let next : u32 (s.last_pid + 1) ≡ s.last_pid + 1 = omega arith in rw (c', n', next) refl
