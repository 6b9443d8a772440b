-- ===== src/Scheduler/Tests.antt =====
-- Runs of the scheduler with two processes.
use abel_os.Base.{inl, ℕ, ◌≡◌, ◌≢◌, refl, [], ◌∷◌, none, some, arith}
use abel_os.Fifo.{Pcb, Entry, ready, proc_ok, head_proc}
use abel_os.Fifo.Lookup.{AreDistinct}
use abel_os.Fifo.Change.{entry}
use abel_os.Scheduler.{
  fifo_ops, free_stack, free_objects, switch, Sched, add_process, kill_process, sched_tick,
  exit_current,
}
use abel_os.Scheduler.Ticks.{running, sched_tick-switches}
use abel_os.Scheduler.Exit.{exit_current-switches, exit_current-alone}
use abel_os.Scheduler.Runs.{IsRunning, here, later, adds}
use abel_os.Scheduler.Safety.{IsSafe, Reach-IsSafe, kill_process-running}
use abel_os.Scheduler.Pids.{IsSched}

abbrev proc_with : ℕ → ℕ → Pcb
proc_with n time = record {
  id = n;
  priority = 0;
  stack_ptr = 0x1000;
  flags = proc_ok;
  status = ready;
  runtime = time;
}

abbrev shell : ℕ → Entry
shell time = entry 0x100 0x200 (proc_with 0 time)

abbrev worker : Entry
worker = entry 0x110 0x210 (proc_with 1 0)

abbrev sched : Sched
sched = record { procs = shell 0 ∷ worker ∷ []; current = 0x100; last_pid = 2; exit_runtime = 0 }

two_procs-AreDistinct : (time : ℕ) → AreDistinct (shell time ∷ worker ∷ [])
two_procs-AreDistinct time =
    (omega arith, (omega arith, tt), (omega arith, tt), (omega arith, tt, tt, tt))

sched-IsSched : IsSched sched
sched-IsSched = (two_procs-AreDistinct 0, (omega arith, (omega arith, tt)))

worker_left : worker ∷ [] ≢ []
worker_left = cc

sched_tick-switches_example :
    sched_tick fifo_ops (running sched [] (shell 299) (worker ∷ []))
    ≡ some (
      record sched { procs = shell 0 ∷ worker ∷ []; current = 0x110 },
      switch (some 0x100) 0x110 ∷ [],
    )
sched_tick-switches_example =
    sched_tick-switches sched [] (shell 299) (worker ∷ []) (two_procs-AreDistinct 299) (omega arith)
      (omega arith) refl worker_left

exit_current-switches_example :
    (exit_current fifo_ops (running sched [] (shell 5) (worker ∷ []))
      ≡ some (
        record sched { procs = worker ∷ []; current = 0x110; exit_runtime = 0 },
        free_stack 0x1000 ∷ free_objects (0x100 ∷ 0x200 ∷ []) ∷ switch none 0x110 ∷ [],
      ))
    × (head_proc (worker ∷ []) ≢ 0x100)
    × AreDistinct (worker ∷ [])
exit_current-switches_example =
    exit_current-switches sched [] (shell 5) (worker ∷ []) (two_procs-AreDistinct 5) worker_left

exit_current-alone_example :
    (exit_current fifo_ops (running sched [] (shell 5) [])
      ≡ some (
        record sched { procs = []; current = 0x100; exit_runtime = 0 },
        free_stack 0x1000 ∷ free_objects (0x100 ∷ 0x200 ∷ []) ∷ switch none 0x100 ∷ [],
      ))
    × (sched_tick fifo_ops (record sched { procs = []; current = 0x100; exit_runtime = 0 }) ≡ none)
exit_current-alone_example = exit_current-alone sched (shell 5) (omega arith, tt, tt, tt)

sched-IsRunning : IsRunning sched
sched-IsRunning = record {
  distinct = two_procs-AreDistinct 0;
  below = (omega arith, (omega arith, tt));
  ok = (refl, (refl, tt));
  current_listed = inl refl;
}

Reach-IsSafe_example : IsSafe (add_process fifo_ops 0x120 0x220 0x9000 0 sched)
Reach-IsSafe_example =
    Reach-IsSafe sched-IsRunning
      (later here (adds 0x120 0x220 0x9000 0 (omega arith) (omega arith, (omega arith, tt))))

kill_process-running_example :
    let (t, fx) = kill_process fifo_ops 0 (running sched [] (shell 5) (worker ∷ [])) in
    (fx ≡ free_objects (0x100 ∷ (0x200 ∷ [])) ∷ [])
    × (t.current ≡ 0x100)
    × (t.procs ≡ worker ∷ [])
    × (sched_tick fifo_ops t ≡ none)
kill_process-running_example =
    kill_process-running sched [] (shell 5) (worker ∷ [])
      (two_procs-AreDistinct 5, (omega arith, (omega arith, tt)))
