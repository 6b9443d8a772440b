-- ===== src/Scheduler.antt =====
-- The scheduler of os/src/kernel/scheduler/scheduler.c over a policy of process-list operations,
-- with the calls that leave the model (page frees, object frees, context switches) as a list of
-- effects in their order.
pub mod Policy
pub mod Ticks
pub mod Exit
pub mod Pids
pub mod Listed
pub mod Runs
pub mod Safety
mod Tests
use abel_os.Base.{
  ℕ, ◌+◌, Bool, true, false, List, [], ◌∷◌, ◌++◌, Option, none, some, ◌==◌, if◌then◌else◌, u32,
}
use abel_os.Fifo.{
  Pcb, Entry, Procs, Status, ready, Flags, proc_ok, proc_exit, load, Dequeued, enqueue, dequeue,
  next, tick,
}

-- `struct sched_ops`, less `init`, which nothing calls. `none` is a null pointer, but for
-- `get_next_proc`, which is called without a test.
pub record SchedOps : Type 0 where
  pub enqueue_proc : Option ((copy node : ℕ) → Option Pcb → Procs → ℕ × Procs)
  pub dequeue_proc : Option (ℕ → Procs → Dequeued)
  pub get_next_proc : ℕ → Procs → Option ℕ
  pub tick_proc : Option (ℕ → Procs → Option ℕ)

-- What `scheduler_init` installs for a null argument.
abbrev pub fifo_ops : SchedOps
fifo_ops = record {
  enqueue_proc = some enqueue;
  dequeue_proc = some dequeue;
  get_next_proc = next;
  tick_proc = some tick;
}

-- `arch_switch_context` is called with two blocks: `none` stands for `exit_helper`.
pub data Effect : Type 0 where
  free_stack : ℕ → Effect
  free_objects : List ℕ → Effect
  register_post_routine : Effect
  switch : Option ℕ → ℕ → Effect

-- The static variables, and the process list. `exit_runtime` is the field of `exit_helper` that is
-- written; `current` is an address, 0 for null.
pub record Sched : Type 0 where
  pub procs : Procs
  pub current : ℕ
  pub last_pid : ℕ
  pub exit_runtime : ℕ

abbrev pub Outcome : Type 0
Outcome = Option (Sched × List Effect)

-- The live block at an address gets a new value.
pub store : ℕ → (Pcb → Pcb) → Procs → Procs
store a f [] = []
store a f (e ∷ es) = if e.proc == a then record e { pcb = f e.pcb } ∷ es else e ∷ store a f es

unfoldable pub init : Sched → Sched
init s = record s { current = 0; last_pid = 0 }

abbrev pub is_exit : Flags → Bool
is_exit proc_ok = false
is_exit proc_exit = true

module _ (impl : SchedOps) where
  -- `copy` and `node` are what `kalloc` returns within the policy.
  pub add_process : (copy node stack priority : ℕ) → Sched → Sched
  add_process copy node stack priority s =
      let p : Pcb = record {
        id = s.last_pid;
        priority = priority;
        stack_ptr = stack;
        flags = proc_ok;
        status = ready;
        runtime = 0;
      } in
      let s' = record s { last_pid = u32 (s.last_pid + 1) } in
      elim impl.enqueue_proc [
        | none ↦ s'
        | some enq ↦ record s' { procs = (enq copy node (some p) s.procs).1 }
      ]

  pub kill_process : ℕ → Sched → Sched × List Effect
  kill_process pid s = elim impl.dequeue_proc [
    | none ↦ (s, [])
    | some deq ↦
        let r = deq pid s.procs in (record s { procs = r.procs }, free_objects r.freed ∷ [])
  ]

  -- The end of `scheduler_schedule`, `from` being a process that goes on.
  abbrev pub leave : ℕ → ℕ → Sched → Outcome
  leave from to s =
      if from == to
      then some (record s { current = to }, [])
      else some (
        record s { current = to; procs = store from (λ b. record b { runtime = 0 }) s.procs },
        switch (some from) to ∷ [],
      )

  -- The same where `from` ends: its stack is freed, it is taken from the list, and `exit_helper`
  -- takes its part. A null `dequeue_proc` is a fault here.
  abbrev pub bury : Pcb → ℕ → Sched → Outcome
  bury b to s = elim impl.dequeue_proc [
    | none ↦ none
    | some deq ↦
        let r = deq b.id s.procs in
        some (
          record s { current = to; procs = r.procs; exit_runtime = 0 },
          free_stack b.stack_ptr ∷ free_objects r.freed ∷ switch none to ∷ [],
        )
  ]

  -- `none` is an access to a block that is not live, of a null `current` among others.
  pub schedule : Sched → Outcome
  schedule s = elim (impl.get_next_proc s.current s.procs) [
    | none ↦ none
    | some to ↦ elim (load s.current s.procs) [
      | none ↦ none
      | some b ↦ if is_exit b.flags then bury b to s else leave s.current to s
    ]
  ]

  -- `must_reschedule` as the policy answers, 0 without one.
  abbrev pub ask : Sched → Option ℕ
  ask s = elim impl.tick_proc [ none ↦ some 0 | some t ↦ t s.current s.procs ]

  pub sched_tick : Sched → Outcome
  sched_tick s = elim (load s.current s.procs) [
    | none ↦ none
    | some _ ↦
        let s' = record s {
          procs = store s.current (λ b. record b { runtime = u32 (b.runtime + 1) }) s.procs;
        } in
        let again = schedule s' in
        elim (ask s') [ none ↦ none | some must ↦ if must == 0 then some (s', []) else again ]
  ]

  -- Returns without a switch only if there is no process.
  pub start : Sched → Outcome
  start s = elim (impl.get_next_proc 0 s.procs) [
    | none ↦ none
    | some first ↦
        let s' = record s { current = first } in
        if first == 0
        then some (s', [])
        else some (s', register_post_routine ∷ switch none first ∷ [])
  ]

  pub exit_current : Sched → Outcome
  exit_current s =
      let s' = record s { procs = store s.current (λ b. record b { flags = proc_exit }) s.procs } in
      let rest = schedule s' in if s.current == 0 then some (s, []) else rest
