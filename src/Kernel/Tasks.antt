-- ===== src/Kernel/Tasks.antt =====
-- The processes of os/src/kernel/kernel.c: `kalloc_test`, and the polling loops of `main` and `task2`.
use abel_os.Base.{ℕ, ◌+◌, List, [], ◌∷◌, Option, some, ltb, if◌then◌else◌, u64}
use abel_os.Memory.{kalloc_pages, kfree_pages}
use abel_os.Platform.{Timer}
use abel_os.Kernel.{Image, Machine, print, print_with, on_memory, ◌>>=◌}

-- `kalloc` and `kfree` on the machine.
pub allocate : Image → ℕ → Machine → Option (ℕ × Machine)
allocate k n m = do (p, s) ← kalloc_pages k.kernel n m.memory; some (p, on_memory m s)

pub release : ℕ → Machine → Option Machine
release p m = do s ← kfree_pages p m.memory; some (on_memory m s)

pub kalloc_test : Image → Machine → Option Machine
kalloc_test k m = do
  m ← print "Running kalloc test\n" m
  m ← print "=============Test 1==============\n" m
  (p1, m) ← allocate k 1024 m
  (p2, m) ← allocate k 1023 m
  (p3, m) ← allocate k 1024 m
  (p4, m) ← allocate k 1024 m
  (p5, m) ← allocate k 128 m
  (p6, m) ← allocate k 128 m
  m ← print_with (p1 ∷ p2 ∷ p3 ∷ p4 ∷ []) "P1: %x, P2: %x, P3: %x, P4: %x" m
  m ← print_with (p5 ∷ p6 ∷ []) "P5: %x, P6: %x\n" m
  m ← release p4 m
  m ← print "==============Test 2==============\n" m
  (p4, m) ← allocate k 1024 m
  m ← release p3 m
  m ← release p2 m
  m ← release p5 m
  m ← release p6 m
  m ← print "==============Test 3==============\n" m
  m ← release p1 m
  (p1, m) ← allocate k 4088 m
  m ← print_with (p1 ∷ p4 ∷ []) "P1: %x, P4: %x\n" m
  m ← release p4 m
  m ← release p1 m
  m ← print "==============Test 4==============\n" m
  (p1, m) ← allocate k 4075 m
  (p2, m) ← allocate k 5 m
  m ← print_with (p1 ∷ p2 ∷ []) "P1: %x, P2: %x\n" m
  m ← release p1 m
  release p2 m

-- `idle` stays in a loop behind its line.
pub idle : Machine → Option Machine
idle m = print "Idle task\n" m

pub pit_ticks : Timer → ℕ
pit_ticks t = t.ticks_from_system_start

pub pit_frequency : Timer → ℕ
pit_frequency t = t.current_interrupt_freq_hz

-- The inner loops of `main` and `task2`: the times at which they print again, of those that
-- `pit_ticks` answers one after the other. The sum is of 64 bits.
pub prints : (period last_tick : ℕ) → List ℕ → List ℕ
prints period last_tick [] = []
prints period last_tick (time ∷ times) =
    let due = prints period time times in
    let early = prints period last_tick times in
    if ltb (u64 (last_tick + period)) time then time ∷ due else early

-- `main` waits for 100 ticks and `task2` for as many as a second has.
pub main_prints : List ℕ → List ℕ
main_prints times = prints 100 0 times

pub task2_prints : Timer → List ℕ → List ℕ
task2_prints t times = prints (pit_frequency t) 0 times
