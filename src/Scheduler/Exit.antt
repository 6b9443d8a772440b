-- ===== src/Scheduler/Exit.antt =====
-- The end of a process: `scheduler_exit_current`.
use abel_os.Base.{◌≡◌, ◌≢◌, refl, ap, ◌∙◌, true, false, [], ◌∷◌, ◌++◌, none, some, arith, ◌==◌}
use abel_os.Fifo.{Pcb, Entry, Procs, proc_exit, head_proc}
use abel_os.Fifo.Lookup.{AreDistinct, load-middle, load-none, middle_ne_null}
use abel_os.Fifo.Rotation.{next-rotates}
use abel_os.Fifo.Change.{dequeue-eq, AreDistinct-drop}
use abel_os.Scheduler.{
  fifo_ops, free_stack, free_objects, switch, Sched, schedule, sched_tick, exit_current, is_exit,
}
use abel_os.Scheduler.Policy.{
  with_block, store-middle, AreDistinct-with, next_of_others, others_differ,
}
use abel_os.Scheduler.Ticks.{running}

abbrev ending : Pcb → Pcb
ending b = record b { flags = proc_exit }

head_with :
    (f : Pcb → Pcb) (xs : Procs) (e : Entry) (ys : Procs)
    → head_proc (ys ++ (xs ++ (with_block e f ∷ []))) ≡ head_proc (ys ++ (xs ++ (e ∷ [])))
head_with f [] e [] = refl
head_with f (x ∷ xs) e [] = refl
head_with f xs e (y ∷ ys) = refl

module _ (s : Sched) (xs : Procs) (e : Entry) (ys : Procs) (d : AreDistinct (xs ++ e ∷ ys)) where
  schedule-buries :
      e.pcb.flags ≡ proc_exit
      → schedule fifo_ops (running s xs e ys)
        ≡ some (
          record s {
            procs = xs ++ ys;
            current = head_proc (ys ++ (xs ++ (e ∷ [])));
            exit_runtime = 0;
          },
          free_stack e.pcb.stack_ptr
              ∷ free_objects (e.proc ∷ e.node ∷ [])
              ∷ switch none (head_proc (ys ++ (xs ++ (e ∷ []))))
              ∷ [],
        )
  unfolding schedule
  schedule-buries exits =
      let ends : is_exit e.pcb.flags ≡ true = ap is_exit exits in
      rw (next-rotates xs e ys d, load-middle xs e ys d, schedule) (rw (ends, dequeue-eq xs e ys d))

module _ (s : Sched) (xs : Procs) (e : Entry) (ys : Procs) (d : AreDistinct (xs ++ e ∷ ys)) where
  exits_to :
      exit_current fifo_ops (running s xs e ys)
      ≡ some (
        record s {
          procs = xs ++ ys;
          current = head_proc (ys ++ (xs ++ (e ∷ [])));
          exit_runtime = 0;
        },
        free_stack e.pcb.stack_ptr
            ∷ free_objects (e.proc ∷ e.node ∷ [])
            ∷ switch none (head_proc (ys ++ (xs ++ (e ∷ []))))
            ∷ [],
      )
  unfolding exit_current schedule
  exits_to =
      let e' = with_block e ending in
      let d' : AreDistinct (xs ++ e' ∷ ys) = AreDistinct-with ending xs e ys refl d in
      let ne = middle_ne_null xs e ys d in
      let live : (e.proc == 0) ≡ false = ground arith in
      rw (live, exit_current)
        (ap (λ q. schedule fifo_ops (record s { procs = q; current = e.proc }))
            (store-middle ending xs e ys d)
          ∙ rw (head_with ending xs e ys) at (schedule-buries s xs e' ys d' refl))

  -- In a list of distinct entries, if the running process exits while others are in the list, its stack, block and node are freed
  -- in this order, and control goes to the first of the others behind it, never to a freed block.
  pub exit_current-switches :
      ys ++ xs ≢ []
      → (exit_current fifo_ops (running s xs e ys)
          ≡ some (
            record s { procs = xs ++ ys; current = head_proc (ys ++ xs); exit_runtime = 0 },
            free_stack e.pcb.stack_ptr
                ∷ free_objects (e.proc ∷ e.node ∷ [])
                ∷ switch none (head_proc (ys ++ xs))
                ∷ [],
          ))
        × (head_proc (ys ++ xs) ≢ e.proc)
        × AreDistinct (xs ++ ys)
  exit_current-switches others = (
    rw (← next_of_others xs e ys others) exits_to,
    others_differ xs e ys d others,
    AreDistinct-drop xs e ys d,
  )

-- If the only process of the list exits, control goes to its own block, after that block was freed;
-- from then on a timer tick reads a block that is not live.
pub exit_current-alone :
    (s : Sched) (e : Entry)
    → AreDistinct (e ∷ [])
    → let s' : Sched = record s { procs = []; current = e.proc; exit_runtime = 0 } in
      (exit_current fifo_ops (running s [] e [])
        ≡ some (
          s',
          free_stack e.pcb.stack_ptr
              ∷ free_objects (e.proc ∷ e.node ∷ [])
              ∷ switch none e.proc
              ∷ [],
        ))
      × (sched_tick fifo_ops s' ≡ none)
unfolding sched_tick
exit_current-alone s e d = (exits_to s [] e [] d, rw (load-none e.proc, sched_tick))
