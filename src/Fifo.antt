-- ===== src/Fifo.antt =====
-- The process list of os/src/kernel/scheduler/fifo.c and the types of
-- os/include/kernel/scheduler/types.h. A process control block is named by its address; the blocks
-- that are live are those of the list.
pub mod Lookup
pub mod Rotation
pub mod Change
mod Tests
use abel_os.Base.{ℕ, Bool, true, false, List, [], ◌∷◌, Option, none, some, leb, ◌==◌, if◌then◌else◌}

-- `enum p_status`
pub data Status : Type 0 where
  ready running blocked : Status

-- `enum p_flags`
pub data Flags : Type 0 where
  proc_ok proc_exit : Flags

-- `struct pcb`
pub record Pcb : Type 0 where
  pub id : ℕ
  pub priority : ℕ
  pub stack_ptr : ℕ
  pub flags : Flags
  pub status : Status
  pub runtime : ℕ

-- A `struct pcb_list` at address `node`, and the block that its `proc` points at.
pub record Entry : Type 0 where
  pub node : ℕ
  pub proc : ℕ
  pub pcb : Pcb

-- `proc_list`, from its first node on.
abbrev pub Procs : Type 0
Procs = List Entry

abbrev pub max_proc_quantum : ℕ
max_proc_quantum = 300

-- The block at an address, `none` if none is live there.
pub load : ℕ → Procs → Option Pcb
load a [] = none
load a (e ∷ es) = if e.proc == a then some e.pcb else load a es

-- The list from the first node with the pid on, as a pointer to that node gives it.
pub get_by_pid : ℕ → Procs → Procs
get_by_pid pid [] = []
get_by_pid pid (e ∷ es) = if e.pcb.id == pid then e ∷ es else get_by_pid pid es

pub fifo_init : Procs
fifo_init = []

-- A new node goes behind the first one.
unfoldable pub link : Entry → Procs → Procs
link e [] = e ∷ []
link e (first ∷ es) = first ∷ e ∷ es

-- `p` is `none` for a null pointer; `copy` and `node` are what the two calls of `kalloc` return,
-- 0 for no memory. The result is 0 for success.
unfoldable pub enqueue : (copy node : ℕ) → Option Pcb → Procs → ℕ × Procs
enqueue copy node none procs = (1, procs)
enqueue copy node (some p) procs =
    if copy == 0
    then (1, procs)
    else if node == 0
    then (1, procs)
    else (0, link (record { node = node; proc = copy; pcb = p }) procs)

-- The list without the first node that has the pid, and the two addresses that are freed; `none`
-- if there is no such node.
pub unlink : ℕ → Procs → Option (Procs × List ℕ)
unlink pid [] = none
unlink pid (e ∷ es) =
    let rest = unlink pid es in
    if e.pcb.id == pid
    then some (es, e.proc ∷ e.node ∷ [])
    else elim rest [ none ↦ none | some (es', freed) ↦ some (e ∷ es', freed) ]

pub record Dequeued : Type 0 where
  pub status : ℕ
  pub procs : Procs
  pub freed : List ℕ

pub dequeue : ℕ → Procs → Dequeued
dequeue pid procs = elim (unlink pid procs) [
  | none ↦ record { status = 1; procs = procs; freed = [] }
  | some (procs', freed) ↦ record { status = 0; procs = procs'; freed = freed }
]

abbrev pub head_proc : Procs → ℕ
head_proc [] = 0
head_proc (e ∷ es) = e.proc

-- The block that follows a node in the list, or the first one of the list behind the last node.
pub after : Procs → Procs → ℕ
after procs [] = 0
after procs (e ∷ []) = head_proc procs
after procs (e ∷ e' ∷ es) = e'.proc

-- Addresses, 0 for null; the outer `none` is a read of a block that is not live.
pub next : ℕ → Procs → Option ℕ
next p procs =
    if p == 0
    then some (head_proc procs)
    else elim (load p procs) [ none ↦ none | some b ↦ some (after procs (get_by_pid b.id procs)) ]

abbrev pub is_nil : Procs → Bool
is_nil [] = true
is_nil (e ∷ es) = false

pub tick : ℕ → Procs → Option ℕ
tick p procs = if p == 0 then some 0 else elim (load p procs) [
  | none ↦ none
  | some b ↦
      if is_nil (get_by_pid b.id procs)
      then some 0
      else if leb max_proc_quantum b.runtime
      then some 1
      else some 0
]
