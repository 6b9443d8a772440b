-- ===== src/Scheduler/Ticks.antt =====
-- Timer ticks: scheduler_tick and scheduler_schedule over the process list.
use abel_os.Base.{
  Bool-cases, inl, inr, if◌then◌else◌, ◌+◌, ◌<◌, ◌≤◌, ◌^◌, ◌≡◌, ◌≢◌, refl, ap, true, false, [], ◌∷◌,
  ◌++◌, some, arith, leb, ◌==◌, ==_refl, u32,
}
use abel_os.Fifo.{Pcb, Entry, Procs, proc_ok, max_proc_quantum, head_proc}
use abel_os.Fifo.Lookup.{AreDistinct, load-middle}
use abel_os.Fifo.Rotation.{next-rotates, tick-middle}
use abel_os.Scheduler.{fifo_ops, switch, Sched, schedule, sched_tick, is_exit}
use abel_os.Scheduler.Policy.{
  with_block, store-middle, AreDistinct-with, next_of_others, others_differ,
}

-- `s` with `e` the running process of its list.
abbrev pub running : Sched → Procs → Entry → Procs → Sched
running s xs e ys = record s { procs = xs ++ e ∷ ys; current = e.proc }

abbrev pub one_more : Pcb → Pcb
one_more b = record b { runtime = u32 (b.runtime + 1) }

abbrev pub reset : Pcb → Pcb
reset b = record b { runtime = 0 }

module _ (s : Sched) (xs : Procs) (e : Entry) (ys : Procs) (d : AreDistinct (xs ++ e ∷ ys)) where
  -- A tick counts the time of the running process, and schedules from the end of its quantum on.
  pub sched_tick-schedule : sched_tick fifo_ops (running s xs e ys) ≡ (
      if leb max_proc_quantum (u32 (e.pcb.runtime + 1))
      then schedule fifo_ops (running s xs (with_block e one_more) ys)
      else some (running s xs (with_block e one_more) ys, []))
  unfolding sched_tick
  sched_tick-schedule =
      let e' = with_block e one_more in
      let d' : AreDistinct (xs ++ e' ∷ ys) = AreDistinct-with one_more xs e ys refl d in
      elim (Bool-cases (leb max_proc_quantum (u32 (e.pcb.runtime + 1)))) [
        | inr early ↦
            rw (load-middle xs e ys d, sched_tick)
              (rw (store-middle one_more xs e ys d, tick-middle xs e' ys d', early)
                (ap (λ q. some (record s { procs = q; current = e.proc }, []))
                  (store-middle one_more xs e ys d)))
        | inl due ↦
            rw (load-middle xs e ys d, sched_tick)
              (rw (store-middle one_more xs e ys d, tick-middle xs e' ys d', due)
                (ap (λ q. schedule fifo_ops (record s { procs = q; current = e.proc }))
                  (store-middle one_more xs e ys d)))
      ]

  -- In a list of distinct entries, up to the end of the quantum a tick counts the time of the
  -- running process, which goes on.
  pub sched_tick-goes_on :
      e.pcb.runtime + 1 < max_proc_quantum
      → sched_tick fifo_ops (running s xs e ys) ≡ some (running s xs (with_block e one_more) ys, [])
  sched_tick-goes_on h =
      let early : leb max_proc_quantum (u32 (e.pcb.runtime + 1)) ≡ false = ground arith in
      rw (sched_tick-schedule, early) refl

  -- A process that is not exiting is followed by the first of the others, by a switch that gives
  -- the former a new quantum.
  pub schedule-switches :
      e.pcb.flags ≡ proc_ok
      → ys ++ xs ≢ []
      → schedule fifo_ops (running s xs e ys)
        ≡ some (
          record s { procs = xs ++ with_block e reset ∷ ys; current = head_proc (ys ++ xs) },
          switch (some e.proc) (head_proc (ys ++ xs)) ∷ [],
        )
  unfolding schedule
  schedule-switches ok others =
      let ne = others_differ xs e ys d others in
      let differs : (e.proc == head_proc (ys ++ xs)) ≡ false = ground arith in
      let stays : is_exit e.pcb.flags ≡ false = ap is_exit ok in
      rw (next-rotates xs e ys d, load-middle xs e ys d, schedule)
        (rw (next_of_others xs e ys others)
          (rw (stays, differs) (rw (store-middle reset xs e ys d))))

  -- A process alone in the list goes on, with no switch.
  pub schedule-alone :
      e.pcb.flags ≡ proc_ok
      → xs ≡ []
      → ys ≡ []
      → schedule fifo_ops (running s xs e ys) ≡ some (running s xs e ys, [])
  unfolding schedule
  schedule-alone ok no_xs no_ys =
      let stays : is_exit e.pcb.flags ≡ false = ap is_exit ok in
      let self : head_proc (ys ++ (xs ++ (e ∷ []))) ≡ e.proc = rw (no_xs, no_ys) in
      rw (next-rotates xs e ys d, load-middle xs e ys d, schedule)
        (rw self (rw (stays, ==_refl e.proc)))

module _ (s : Sched) (xs : Procs) (e : Entry) (ys : Procs) (d : AreDistinct (xs ++ e ∷ ys)) where
  -- In a list of distinct entries, the tick that completes the quantum of a process which is not
  -- exiting switches to the first of the other processes, in list order behind the running one, and
  -- gives the former a new quantum; its time must fit 32 bits.
  pub sched_tick-switches :
      max_proc_quantum ≤ e.pcb.runtime + 1
      → e.pcb.runtime + 1 < 2 ^ 32
      → e.pcb.flags ≡ proc_ok
      → ys ++ xs ≢ []
      → sched_tick fifo_ops (running s xs e ys)
        ≡ some (
          record s { procs = xs ++ with_block e reset ∷ ys; current = head_proc (ys ++ xs) },
          switch (some e.proc) (head_proc (ys ++ xs)) ∷ [],
        )
  sched_tick-switches full small ok others =
      let e' = with_block e one_more in
      let d' : AreDistinct (xs ++ e' ∷ ys) = AreDistinct-with one_more xs e ys refl d in
      let due : leb max_proc_quantum (u32 (e.pcb.runtime + 1)) ≡ true = ground arith in
      rw (sched_tick-schedule s xs e ys d, due) (schedule-switches s xs e' ys d' ok others)
