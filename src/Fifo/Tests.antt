-- ===== src/Fifo/Tests.antt =====
-- Runs of the process list with three processes.
use abel_os.Base.{ℕ, ◌≡◌, refl, [], ◌∷◌, some, arith}
use abel_os.Fifo.{Pcb, Entry, Procs, ready, proc_ok, load, get_by_pid, link, enqueue, after, next}
use abel_os.Fifo.Lookup.{AreDistinct}
use abel_os.Fifo.Rotation.{turns, turns_round}
use abel_os.Fifo.Change.{entry}

abbrev block : ℕ → Pcb
block n = record {
  id = n;
  priority = 0;
  stack_ptr = 0x1000;
  flags = proc_ok;
  status = ready;
  runtime = 0;
}

abbrev first_proc : Entry
first_proc = entry 0x100 0x200 (block 0)

abbrev second_proc : Entry
second_proc = entry 0x110 0x210 (block 1)

abbrev third_proc : Entry
third_proc = entry 0x120 0x220 (block 2)

abbrev three_procs : Procs
three_procs = first_proc ∷ second_proc ∷ third_proc ∷ []

three_procs-AreDistinct : AreDistinct three_procs
three_procs-AreDistinct = (
  omega arith,
  (omega arith, (omega arith, tt)),
  (omega arith, (omega arith, tt)),
  (omega arith, (omega arith, tt), (omega arith, tt), (omega arith, tt, tt, tt)),
)

enqueue_run :
    (enqueue 0x130 0x230 (some (block 3)) three_procs).1
    ≡ first_proc ∷ entry 0x130 0x230 (block 3) ∷ second_proc ∷ third_proc ∷ []
unfolding enqueue link
enqueue_run = refl

next_run : next 0x120 three_procs ≡ some 0x100
unfolding next load get_by_pid after
next_run = refl

turns_round_example : turns three_procs 3 0x100 ≡ some (0x110 ∷ 0x120 ∷ 0x100 ∷ [])
turns_round_example = turns_round first_proc (second_proc ∷ third_proc ∷ []) three_procs-AreDistinct
