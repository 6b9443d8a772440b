-- ===== src/Kernel/Created.antt =====
-- The four processes that `kernel_main` creates, one behind the other, and their stacks.
use abel_os.Base.{ℕ, ◌+◌, ◌≡◌, ◌≢◌, sym, ap, ◌∙◌, List, [], ◌∷◌}
use mathlib.Core.Path.{subst}
use abel_os.Memory.{Memory}
use abel_os.Fifo.{Entry, Procs, link}
use abel_os.Scheduler.{Sched}
use abel_os.Kernel.{Image, Machine}
use abel_os.Kernel.Stacks.{WillStart, WillStart-kept, WillStart-differs}
use abel_os.Kernel.Processes.{IsCreated}

module _ (k : Image) (n p : ℕ) (m t : Machine) (e : Entry) (added : IsCreated k n p m t e) where
  pub added_procs : (es : Procs) → m.sched.procs ≡ es → t.sched.procs ≡ link e es
  added_procs es same = ap (λ (s : Sched). s.procs) added.sched_eq ∙ ap (link e) same

  pub added_pid : (i : ℕ) → m.sched.last_pid ≡ i → t.sched.last_pid ≡ i + 1
  added_pid i same = ap (λ (s : Sched). s.last_pid) added.sched_eq ∙ ap (λ j. j + 1) same

  -- The stacks of the processes that were created before.
  created_keeps :
      (q : ℕ) (f : Entry)
      → WillStart k q m.memory.space m.words f
      → WillStart k q t.memory.space t.words f
  created_keeps q f =
      WillStart-kept k q added.starts.index e.pcb.stack_ptr _ _ _ _ f added.unused added.starts.top
        added.entries added.words

  created_differs :
      (q : ℕ) (f : Entry)
      → WillStart k q m.memory.space m.words f
      → f.pcb.stack_ptr ≢ e.pcb.stack_ptr
  created_differs q f =
      WillStart-differs k q added.starts.index e.pcb.stack_ptr _ _ f added.unused added.starts.top

-- No number stands twice in the list.
abbrev IsNoneOf : ℕ → List ℕ → Type 0
IsNoneOf p [] = Unit {0}
IsNoneOf p (q ∷ qs) = (q ≢ p) × IsNoneOf p qs

abbrev AllDiffer : List ℕ → Type 0
AllDiffer [] = Unit {0}
AllDiffer (p ∷ ps) = IsNoneOf p ps × AllDiffer ps

-- Each process will start at its own entry point, on a stack of its own.
pub record HaveStacks (k : Image) (t : Machine) (main task2 kalloc_test idle : Entry) : Type 0 where
  pub main_starts : WillStart k k.main t.memory.space t.words main
  pub task2_starts : WillStart k k.task2 t.memory.space t.words task2
  pub kalloc_test_starts : WillStart k k.kalloc_test t.memory.space t.words kalloc_test
  pub idle_starts : WillStart k k.idle t.memory.space t.words idle
  pub differ : AllDiffer (
      idle.pcb.stack_ptr ∷ kalloc_test.pcb.stack_ptr ∷ task2.pcb.stack_ptr ∷ main.pcb.stack_ptr
      ∷ [])

-- They depend on nothing but the tables of the pages and the words.
pub HaveStacks-kept :
    (k : Image) (u v : Machine) (main task2 kalloc_test idle : Entry)
    → v.memory ≡ u.memory
    → v.words ≡ u.words
    → HaveStacks k u main task2 kalloc_test idle
    → HaveStacks k v main task2 kalloc_test idle
HaveStacks-kept k u v main task2 kalloc_test idle memory words w = record {
  main_starts = kept k.main main w.main_starts;
  task2_starts = kept k.task2 task2 w.task2_starts;
  kalloc_test_starts = kept k.kalloc_test kalloc_test w.kalloc_test_starts;
  idle_starts = kept k.idle idle w.idle_starts;
  differ = w.differ;
}
  where
    kept :
        (p : ℕ) (e : Entry)
        → WillStart k p u.memory.space u.words e
        → WillStart k p v.memory.space v.words e
    kept p e w =
        subst (λ x. WillStart k p v.memory.space x e) (sym words)
          (subst (λ (s : Memory). WillStart k p s.space u.words e) (sym memory) w)

-- Four processes created one behind the other.
pub created-HaveStacks :
    (k : Image) (n : ℕ) (m m1 m2 m3 m4 : Machine) (main task2 kalloc_test idle : Entry)
    → IsCreated k (n + 5 + 5 + 5) k.main m m1 main
    → IsCreated k (n + 5 + 5) k.task2 m1 m2 task2
    → IsCreated k (n + 5) k.kalloc_test m2 m3 kalloc_test
    → IsCreated k n k.idle m3 m4 idle
    → HaveStacks k m4 main task2 kalloc_test idle
created-HaveStacks k n m m1 m2 m3 m4 main task2 kalloc_test idle a1 a2 a3 a4 =
    let later3 = created_keeps k (n + 5) k.kalloc_test m2 m3 kalloc_test a3 in
    let later4 = created_keeps k n k.idle m3 m4 idle a4 in
    let differs2 = created_differs k (n + 5 + 5) k.task2 m1 m2 task2 a2 in
    let differs3 = created_differs k (n + 5) k.kalloc_test m2 m3 kalloc_test a3 in
    let differs4 = created_differs k n k.idle m3 m4 idle a4 in
    let main2 = created_keeps k (n + 5 + 5) k.task2 m1 m2 task2 a2 k.main main a1.starts in
    let main3 = later3 k.main main main2 in
    let task3 = later3 k.task2 task2 a2.starts in
    record {
      main_starts = later4 k.main main main3;
      task2_starts = later4 k.task2 task2 task3;
      kalloc_test_starts = later4 k.kalloc_test kalloc_test a3.starts;
      idle_starts = a4.starts;
      differ = (
        (
          differs4 k.kalloc_test kalloc_test a3.starts,
          (differs4 k.task2 task2 task3, (differs4 k.main main main3, tt)),
        ),
        (
          (differs3 k.task2 task2 a2.starts, (differs3 k.main main main2, tt)),
          ((differs2 k.main main a1.starts, tt), (tt, tt)),
        ),
      );
    }
