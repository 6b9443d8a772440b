-- ===== src/Scheduler/Runs.antt =====
-- The scheduler in operation: the steps that timer, processes and kernel make it take, in any order.
use abel_os.Base.{
  ℕ, ◌+◌, ◌<◌, ◌^◌, ◌≡◌, ◌≢◌, refl, sym, [], ◌∷◌, ◌++◌, List, some, none, ◌⊎◌, inl, inr, Bool-cases,
  leb, u32,
}
use mathlib.Core.Path.{subst}
use abel_os.Fifo.{Pcb, Entry, Procs, head_proc, max_proc_quantum, load}
use abel_os.Fifo.Lookup.{NoProc, AreDistinct}
use abel_os.Scheduler.{
  fifo_ops, Sched, Effect, Outcome, add_process, kill_process, sched_tick, exit_current, schedule,
}
use abel_os.Scheduler.Policy.{with_block, AreDistinct-with}
use abel_os.Scheduler.Pids.{AreBelow}
use abel_os.Scheduler.Ticks.{
  running, one_more, reset, sched_tick-schedule, schedule-switches, schedule-alone,
}
use abel_os.Scheduler.Listed.{
  Listed, AreOk, Listed-split, Listed-middle, Listed-with, Listed-head_proc, Listed-insert,
  AreOk-middle, AreOk-with, AreBelow-with,
}

-- The processes are distinct, none of them is ending, and one of them runs.
pub record IsRunning (s : Sched) : Type 0 where
  pub distinct : AreDistinct s.procs
  pub below : AreBelow s.last_pid s.procs
  pub ok : AreOk s.procs
  pub current_listed : Listed s.current s.procs

-- One step. A new block is at an address that is none of the list, as `kalloc` answers; a process
-- exits while another one is listed; a process that is killed does not run.
pub data Step (s : Sched) : List Effect → Sched → Type 0 where
  ticks : {t : Sched} {fx : List Effect} → sched_tick fifo_ops s ≡ some (t, fx) → Step s fx t
  adds :
      (copy node stack priority : ℕ)
      → s.last_pid + 1 < 2 ^ 32
      → NoProc copy s.procs
      → Step s [] (add_process fifo_ops copy node stack priority s)
  exits :
      {t : Sched} {fx : List Effect} (other : ℕ)
      → Listed other s.procs
      → other ≢ s.current
      → exit_current fifo_ops s ≡ some (t, fx)
      → Step s fx t
  kills :
      {b : Pcb} (pid : ℕ)
      → load s.current s.procs ≡ some b
      → b.id ≢ pid
      → Step s (kill_process fifo_ops pid s).1 (kill_process fifo_ops pid s).0

pub data Reach (s : Sched) : Sched → Type 0 where
  here : Reach s s
  later : {t u : Sched} {fx : List Effect} → Reach s t → Step t fx u → Reach s u

-- A tick of a running scheduler succeeds.
abbrev pub Succeeds : Outcome → Type 0
Succeeds none = ⊥
Succeeds (some (t, fx)) = IsRunning t

pub nil-cases : (xs ys : Procs) → ((xs ≡ []) × (ys ≡ [])) ⊎ (ys ++ xs ≢ [])
nil-cases [] [] = inl (refl, refl)
nil-cases (x ∷ xs) [] = inr (λ h. cc)
nil-cases xs (y ∷ ys) = inr (λ h. cc)

module _ (s : Sched) (xs : Procs) (e : Entry) (ys : Procs) (v : IsRunning (running s xs e ys)) where
  -- The invariant with the running block changed and another one running, if its pid and flags stay.
  changed :
      (f : Pcb → Pcb) (to : ℕ)
      → (f e.pcb).id ≡ e.pcb.id
      → (f e.pcb).flags ≡ e.pcb.flags
      → Listed to (xs ++ e ∷ ys)
      → IsRunning (record s { procs = xs ++ with_block e f ∷ ys; current = to })
  changed f to same_id same_flags listed = record {
    distinct = AreDistinct-with f xs e ys same_id v.distinct;
    below = AreBelow-with s.last_pid f xs e ys same_id v.below;
    ok = AreOk-with f xs e ys same_flags v.ok;
    current_listed = Listed-with to f xs e ys listed;
  }

-- Giving the processor away keeps the invariant, with others in the list or alone.
schedule-Succeeds :
    (s : Sched) (xs : Procs) (e : Entry) (ys : Procs)
    → IsRunning (running s xs e ys)
    → Succeeds (schedule fifo_ops (running s xs e ys))
schedule-Succeeds s xs e ys v =
    let ok = AreOk-middle xs e ys v.ok in
    elim (nil-cases xs ys) [
      | inl (no_xs, no_ys) ↦ rw (schedule-alone s xs e ys v.distinct ok no_xs no_ys) v
      | inr others ↦ rw (schedule-switches s xs e ys v.distinct ok others) (
          changed s xs e ys v reset (head_proc (ys ++ xs)) refl refl
            (Listed-insert _ xs e ys (Listed-head_proc xs ys others)))
    ]

running-Succeeds :
    (s : Sched) (xs : Procs) (e : Entry) (ys : Procs)
    → IsRunning (running s xs e ys)
    → Succeeds (sched_tick fifo_ops (running s xs e ys))
running-Succeeds s xs e ys v =
    let v' : IsRunning (running s xs (with_block e one_more) ys) =
      changed s xs e ys v one_more e.proc refl refl (Listed-middle xs e ys) in
    elim (Bool-cases (leb max_proc_quantum (u32 (e.pcb.runtime + 1)))) [
      | inl due ↦
          rw (sched_tick-schedule s xs e ys v.distinct, due)
            (schedule-Succeeds s xs (with_block e one_more) ys v')
      | inr early ↦ rw (sched_tick-schedule s xs e ys v.distinct, early) v'
    ]

-- A state with its running entry shown.
pub shown :
    (s : Sched) → IsRunning s → (xs : Procs) × (e : Entry) × (ys : Procs) × (s ≡ running s xs e ys)
shown s v =
    let (xs, e, ys, same, at) = Listed-split s.current s.procs v.current_listed in
    (xs, e, ys, λ i. record s { procs = same i; current = sym at i })

pub tick-Succeeds : (s : Sched) → IsRunning s → Succeeds (sched_tick fifo_ops s)
tick-Succeeds s v =
    let (xs, e, ys, same) = shown s v in
    subst (λ t. Succeeds (sched_tick fifo_ops t)) (sym same)
      (running-Succeeds s xs e ys (subst IsRunning same v))
