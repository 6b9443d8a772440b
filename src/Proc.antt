-- ===== src/Proc.antt =====
-- The stack of a new process: os/src/kernel/scheduler/proc.c and os/src/arch/x86/scheduler/proc.c.
-- Memory gives the word at an address.
pub mod Frame
mod Tests
use abel_os.Base.{ℕ, ◌+◌, ◌-◌, ◌^◌, Bool, true, false, ◌==◌, if◌then◌else◌, u32, sub32}

abbrev pub Words : Type 0
Words = ℕ → ℕ

-- A store to the word at `a`.
abbrev pub store : ℕ → ℕ → Words → Words
store a v m x = if x == a then v else m x

-- `sizeof(struct sched_frame)`
abbrev pub frame_size : ℕ
frame_size = 28

-- `exit` is the address of `scheduler_exit_current`. The fields in the order of the assignments; the
-- addition of a field's offset does not wrap around where the frame lies below the end of memory.
pub arch_proc_prepare_stack : (exit p_start stack_start : ℕ) → Words → ℕ × Words
arch_proc_prepare_stack exit p_start stack_start m =
    let frame = sub32 stack_start frame_size in
    (
      frame,
      store (frame + 24) exit (
          store (frame + 20) p_start (
            store (frame + 16) 0x00000202 (
              store (frame + 12) 0 (store (frame + 8) 0 (store (frame + 4) 0 (store frame 0 m)))))),
    )

-- `stack_end` is what `vmm_alloc_page` returns.
pub proc_create_process : (exit stack_end p_start : ℕ) → Words → ℕ × Words
proc_create_process exit stack_end p_start m =
    if stack_end == 0
    then (0, m)
    else arch_proc_prepare_stack exit p_start (u32 (stack_end + 4096)) m
