-- ===== src/Kernel/Main.antt =====
-- The end of `kernel_main`: four processes, and the switch to the first one.
use abel_os.Base.{
  ◌^◌, ◌==◌, if◌then◌else◌, ℕ, ◌+◌, ◌<◌, ◌≡◌, ◌≢◌, refl, sym, ap, ◌∙◌, List, [], ◌∷◌, some, none,
  arith,
}
use mathlib.Core.Path.{subst}
use abel_os.Vmm.Frames.{window}
use abel_os.Memory.{Memory}
use abel_os.Interrupts.{register_irq_post_routine}
use abel_os.Memory.Alloc.{IsMemory}
use abel_os.Memory.Supply.{HasSupply}
use abel_os.Fifo.Lookup.{AreDistinct}
use abel_os.Fifo.{Entry, Procs, link}
use abel_os.Scheduler
use abel_os.Scheduler.{Sched, Effect, fifo_ops, register_post_routine, switch, start}
use abel_os.Scheduler.Pids.{IsSched}
use abel_os.Scheduler.Listed.{AreOk}
use abel_os.Scheduler.Runs.{IsRunning, Reach}
use abel_os.Scheduler.Safety.{IsSafe, Reach-IsSafe, start-head_proc, start-Succeeds}
use abel_os.Kernel.{Image, Machine, start_process, scheduler_init, scheduler_start, start_processes}
use abel_os.Kernel.Created.{added_procs, added_pid, HaveStacks, HaveStacks-kept, created-HaveStacks}
use abel_os.Kernel.Linked.{AreLinked}
use abel_os.Kernel.Processes.{IsSystem, IsCreated, start_process-IsCreated}

-- What the kernel has when its first process starts to run.
pub record IsStarted (k : Image) (n : ℕ) (t : Machine) (fx : List Effect) : Type 0 where
  pub system : IsSystem k t
  pub left : HasSupply n t.memory
  pub running : IsRunning t.sched
  pub main : Entry
  pub task2 : Entry
  pub kalloc_test : Entry
  pub idle : Entry
  pub order : t.sched.procs ≡ main ∷ idle ∷ kalloc_test ∷ task2 ∷ []
  pub main_id : main.pcb.id ≡ 0
  pub task2_id : task2.pcb.id ≡ 1
  pub kalloc_test_id : kalloc_test.pcb.id ≡ 2
  pub idle_id : idle.pcb.id ≡ 3
  pub stacks : HaveStacks k t main task2 kalloc_test idle
  pub runs : t.sched.current ≡ main.proc
  pub safe : {u : Sched} → Reach t.sched u → IsSafe u
  pub effects : fx ≡ register_post_routine ∷ switch none main.proc ∷ []

-- The machine as `scheduler_init` leaves it.
scheduler_init-IsSystem :
    (k : Image) (m : Machine)
    → IsMemory k.kernel m.memory
    → m.sched.procs ≡ []
    → IsSystem k (scheduler_init m)
unfolding scheduler_init Scheduler.init
scheduler_init-IsSystem k m v none_yet = record {
  memory_lem = v;
  sched_lem = rw none_yet (tt, tt);
  ok = rw none_yet tt;
  linked = rw none_yet tt;
}

scheduler_start-eq :
    (k : Image) (m : Machine) (e : Entry) (es : Procs)
    → m.sched.procs ≡ e ∷ es
    → e.proc ≢ 0
    → (t : Machine) × (fx : List Effect) × (scheduler_start k m ≡ some (t, fx))
      × (t.memory ≡ m.memory)
      × (t.words ≡ m.words)
      × (t.sched ≡ record m.sched { current = e.proc })
      × (fx ≡ register_post_routine ∷ switch none e.proc ∷ [])
unfolding scheduler_start
scheduler_start-eq k m e es same live = (
  record m {
    sched = record m.sched { current = e.proc };
    tables = if e.proc == 0 then m.tables else register_irq_post_routine 0 k.irq_handler m.tables;
  },
  register_post_routine ∷ switch none e.proc ∷ [],
  rw (start-head_proc m.sched e es same live) refl,
  refl,
  refl,
  refl,
  refl,
)

-- The four processes and the start, one after the other.
scheduler_start-IsStarted :
    (k : Image) (n : ℕ) (m m1 m2 m3 m4 : Machine) (main task2 kalloc_test idle : Entry)
    → m.sched.procs ≡ []
    → start_process k k.main (scheduler_init m) ≡ some m1
    → start_process k k.task2 m1 ≡ some m2
    → start_process k k.kalloc_test m2 ≡ some m3
    → start_process k k.idle m3 ≡ some m4
    → IsCreated k (n + 5 + 5 + 5) k.main (scheduler_init m) m1 main
    → IsCreated k (n + 5 + 5) k.task2 m1 m2 task2
    → IsCreated k (n + 5) k.kalloc_test m2 m3 kalloc_test
    → IsCreated k n k.idle m3 m4 idle
    → (t : Machine) × (fx : List Effect) × (start_processes k m ≡ some (t, fx)) × IsStarted k n t fx
unfolding start_processes scheduler_init Scheduler.init link
scheduler_start-IsStarted k n m m1 m2 m3 m4 main task2 kalloc_test idle none_yet r1 r2 r3 r4 a1 a2
      a3 a4 =
    let order : m4.sched.procs ≡ main ∷ idle ∷ kalloc_test ∷ task2 ∷ [] =
      added_procs k n k.idle m3 m4 idle a4 _ (
        added_procs k (n + 5) k.kalloc_test m2 m3 kalloc_test a3 _ (
          added_procs k (n + 5 + 5) k.task2 m1 m2 task2 a2 _
            (added_procs k (n + 5 + 5 + 5) k.main (scheduler_init m) m1 main a1 _ none_yet))) in
    let pid1 = added_pid k (n + 5 + 5 + 5) k.main (scheduler_init m) m1 main a1 0 refl in
    let pid2 = added_pid k (n + 5 + 5) k.task2 m1 m2 task2 a2 1 pid1 in
    let pid3 = added_pid k (n + 5) k.kalloc_test m2 m3 kalloc_test a3 2 pid2 in
    let live = (subst AreDistinct order a4.system.sched_lem.0).0 in
    let (t, fx, runs, memory, words, sched, effects) = scheduler_start-eq k m4 main _ order live in
    let now : IsRunning t.sched = subst IsRunning (sym sched) (
      rw (start-head_proc m4.sched main _ order live) at
        (start-Succeeds m4.sched main _ order a4.system.sched_lem a4.system.ok)) in
    (
      t,
      fx,
      rw r1 (rw r2 (rw r3 (rw r4 runs))),
      record {
        system = record {
          memory_lem = subst (IsMemory k.kernel) (sym memory) a4.system.memory_lem;
          sched_lem = subst IsSched (sym sched) a4.system.sched_lem;
          ok = subst (λ (s : Sched). AreOk s.procs) (sym sched) a4.system.ok;
          linked =
              subst (λ (s : Sched). AreLinked t.memory.heap.used s.procs) (sym sched)
                (subst (λ (s : Memory). AreLinked s.heap.used m4.sched.procs) (sym memory)
                  a4.system.linked);
        };
        left = subst (HasSupply n) (sym memory) a4.left;
        running = now;
        safe = Reach-IsSafe now;
        main = main;
        task2 = task2;
        kalloc_test = kalloc_test;
        idle = idle;
        order = ap (λ (s : Sched). s.procs) sched ∙ order;
        main_id = a1.id_eq;
        task2_id = a2.id_eq ∙ pid1;
        kalloc_test_id = a3.id_eq ∙ pid2;
        idle_id = a4.id_eq ∙ pid3;
        stacks = HaveStacks-kept k m4 t main task2 kalloc_test idle memory words (
            created-HaveStacks k n (scheduler_init m) m1 m2 m3 m4 main task2 kalloc_test idle a1 a2
              a3 a4);
        runs = ap (λ (s : Sched). s.current) sched;
        effects = effects;
      },
    )

-- For a kernel whose pages start at 0xC0400000, memory that satisfies its invariant with twenty pages to
-- give and no process: `kernel_main` creates the processes main, task2, kalloc_test and idle with the
-- pids 0 to 3 and switches to main, behind which the others stand in the order of their creation
-- reversed. Each has a stack of its own at the end of a page that is in use, from which a first switch
-- pops four registers of 0, the flags with interrupts enabled, the process's own entry point, and the
-- return into `scheduler_exit_current`. The invariants of memory, list and scheduler hold, the pages
-- beyond the twenty are left, and however ticks, new processes at addresses of no listed block while
-- the counter of pids does not wrap around, exits while another process is listed, and kills of
-- processes that do not run follow, neither a tick, nor an exit while another process is listed, reads
-- a block that is not live.
pub start_processes-IsStarted :
    (k : Image) (n : ℕ) (m : Machine)
    → k.kernel.virt_start ≡ window
    → IsMemory k.kernel m.memory
    → HasSupply (n + 5 + 5 + 5 + 5) m.memory
    → m.sched.procs ≡ []
    → (t : Machine) × (fx : List Effect) × (start_processes k m ≡ some (t, fx)) × IsStarted k n t fx
unfolding scheduler_init Scheduler.init
start_processes-IsStarted k n m at v g none_yet =
    let s0 = scheduler_init-IsSystem k m v none_yet in
    let (m1, main, r1, a1) =
      start_process-IsCreated k k.main (n + 5 + 5 + 5) (scheduler_init m) at s0 g (omega arith) in
    let pid1 = added_pid k (n + 5 + 5 + 5) k.main (scheduler_init m) m1 main a1 0 refl in
    let (m2, task2, r2, a2) =
      start_process-IsCreated k k.task2 (n + 5 + 5) m1 at a1.system a1.left
        (low pid1 (omega arith)) in
    let pid2 = added_pid k (n + 5 + 5) k.task2 m1 m2 task2 a2 1 pid1 in
    let (m3, kalloc_test, r3, a3) =
      start_process-IsCreated k k.kalloc_test (n + 5) m2 at a2.system a2.left
        (low pid2 (omega arith)) in
    let pid3 = added_pid k (n + 5) k.kalloc_test m2 m3 kalloc_test a3 2 pid2 in
    let (m4, idle, r4, a4) =
      start_process-IsCreated k k.idle n m3 at a3.system a3.left (low pid3 (omega arith)) in
    scheduler_start-IsStarted k n m m1 m2 m3 m4 main task2 kalloc_test idle none_yet r1 r2 r3 r4 a1
      a2 a3 a4
  where
    low : {i j : ℕ} → i ≡ j → j + 1 < 2 ^ 32 → i + 1 < 2 ^ 32
    low {i} {j} e h = omega arith
