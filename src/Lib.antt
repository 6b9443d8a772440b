-- ===== src/Lib.antt =====
-- Abel-OS: a small 32-bit kernel for x86.
--
-- At start-up the kernel reads the e820 memory map that the boot loader left, builds a bitmap of
-- physical pages from it (PmmInit), then hands out and takes back pages through that bitmap (Pmm)
-- and maps them by the page tables (Vmm). The heap cuts pages into blocks (Kalloc). The set-up of
-- the interrupts fills the descriptor table and tells the controllers which vectors to raise, and
-- the timer its rate (Platform); the vectors reach their handlers through two tables (Interrupts).
-- Keyboard interrupts become key events (Keyboard, Keys) in a queue that processes read (Input).
-- Timer interrupts drive the scheduler (Scheduler), whose processes stand in a list (Fifo) and start
-- on a prepared stack (Proc). All parts print on the text screen (Printk). The heap, the pages of the
-- kernel and the physical pages together are its memory (Memory), and the start puts all parts
-- together: it sets them up one after the other, creates four processes, whose stacks are pages and
-- whose control blocks come from the heap, and switches to the first one (Kernel).
--
-- Files and the code that they model:
--   Mem        os/src/lib/mem.c: memset, memcpy; os/src/lib/string.c: strlen.
--   Pmm        os/src/kernel/pmm/pmm.c. `alloc_page`, `free_page_n` and `free_page` are the functions
--              with the prefix pmm_; `find_byte` and `mark_used` are parts of pmm_alloc_page. The
--              global pmm_mmap is a record that each operation takes and returns.
--   PmmInit    os/src/arch/x86/pmm/pmm.c, under the names of its functions; `settle` is the inner loop
--              of get_free_mem_range_for_bitmap, `fill_bitmap` the second half of arch_pmm_init.
--   Vmm        os/src/arch/x86/vmm/vmm.c, os/src/kernel/vmm/vmm.c and os/include/arch/x86/vmm/types.h.
--   Kalloc     os/src/kernel/kalloc/kalloc.c: `find_fit`, `place` and `carve` are the parts of kalloc,
--              `take_at`, `insert_free` and `with_prev` those of kfree, `touch` and `joined` those of
--              k_try_collide.
--   Printk     os/src/kernel/printk/printk.c, os/include/arch/x86/stdarg.h. `convert` is the switch of
--              printk; the functions named for digits are the loops of the printing functions.
--   Keys       os/include/kernel/input/types.h, os/src/kernel/input/types.c.
--   Input      os/src/kernel/input/input.c; its functions have the prefix input_ there.
--   Keyboard   os/src/drivers/keyboard.c: `parse` is ps2_keyboard_parse, `irq_handler` the handler.
--   Fifo       os/src/kernel/scheduler/fifo.c; its functions have the prefix sched_fifo_ there.
--   Scheduler  os/src/kernel/scheduler/scheduler.c. `sched_tick` is scheduler_tick, `leave` and `bury`
--              are the two ends of scheduler_schedule.
--   Interrupts os/src/kernel/interrupt/interrupt.c and irq.c, os/src/arch/x86/interrupts/irq.c and
--              exception.c, and pic_send_eoi of pic.c. Calls of handlers are effects.
--   Platform   os/src/arch/x86/interrupts/idt.c, pic.c and interrupts.c, os/src/arch/x86/timer/pit.c.
--              Platform.Ports has the constants of their headers.
--   Proc       os/src/kernel/scheduler/proc.c, os/src/arch/x86/scheduler/proc.c.
--   Memory     kalloc and kfree again, as one with the calls of vmm_alloc_page and vmm_free_page that
--              Kalloc takes as arguments: `with_page` and `without_page` are those calls.
--   Kernel     os/src/kernel/kernel.c, os/src/arch/x86/setup.c and the initialising functions that
--              they call. `start_processes` is kernel_main from scheduler_init on, `setup` the part
--              in front; `create_process` and `add_to_scheduler` are proc_create_process and
--              scheduler_add_process with the memory that they ask for. Kernel.Tasks has the
--              processes: kalloc_test, idle, and the polling loops of main and task2.
--   Base       what the others share: Boolean tests, arrays as lists, widths, binary digits.
-- In each folder the child modules are named for what they prove; Tests holds runs and examples.
--
-- How code becomes definitions. Numbers are natural numbers, with the wrap-around of 8, 16, 32 or 64
-- bits written out where the code can reach it. Static variables are records that are passed on.
-- `none` as the result of a scheduler operation is an access to a process block that is not live.
-- A list of processes has an address for each node and block, so that what is freed and what is
-- switched to can be compared. Page frees, object frees and context switches of the scheduler are
-- a list of effects in the order of the calls.
--
-- Loops are structural. The one loop with fuel is `settle`: each of the three reserved ranges is met
-- at most once, since the candidate moves behind it, so that four rounds are enough
-- (PmmInit.Place).
--
-- Orders of events. Scheduler.Runs has the steps that timer, processes and kernel make the scheduler
-- take, Vmm.Separate the calls that take and return pages of the kernel; both are relations whose
-- chains are all orders of these steps. In Scheduler.Runs a process exits while another one is listed,
-- a process that is killed does not run, and a new process is added at an address of no listed block
-- while the counter of pids, which the code lets wrap around at 2^32, does not. A supply
-- (Memory.Supply) says how many pages are left to give: a process takes at most five, so that twenty
-- are enough for the start.
--
-- The interrupt controllers. The port writes of the set-up are a list; Platform.Lines has the
-- controllers as their data sheet describes them, as a machine that takes these writes, so that the
-- vectors are theirs.
--
-- The loops over digits have the places of their buffers as fuel, which are enough for every number
-- of the type (Printk.Numbers). `none` as the result of a printing function is a recursion without
-- end or a read behind the end of a format.
--
-- Parameters: the linker's symbols (`KernelImage`, `Image`), the bytes of memory where the bitmap is
-- put, the byte that the keyboard's port yields, the words of the stack and the strings that printk
-- reads, and the policy of the scheduler (`SchedOps`), which the theorems fill with the process list.
-- Within a component, what it asks another one for is an argument too: the addresses that kalloc
-- returns inside sched_fifo_enqueue, the physical page for a new page table, the pages that
-- vmm_alloc_page returns to kalloc and to proc_create_process. Memory and Kernel make these calls.
--
-- Not modelled: the port access of os/src/drivers/ps2_controller.c, which is single instructions. The
-- boot loader, the interrupt stubs and the context switch are assembly. That switch stores the stack
-- pointer of the process that it leaves in the block of this process; here the block keeps the pointer
-- that it was created with, so that the address of a free_stack effect is that one, which the code may
-- find elsewhere in the stack. Memory that is written in words has one word for each address, and two
-- that overlap are not related: the frame of a new process is made of words apart from one another.
-- `none` for the least int is how print_int's call of itself with the same number is modelled. The
-- lines that other parts than the start print are left out of them. Interrupts during the start are
-- not modelled: the scheduler's tick is registered at its end.
pub mod Base
pub mod Fifo
pub mod Input
pub mod Interrupts
pub mod Kalloc
pub mod Kernel
pub mod Keyboard
pub mod Keys
pub mod Mem
pub mod Memory
pub mod Platform
pub mod Pmm
pub mod PmmInit
pub mod Printk
pub mod Proc
pub mod Scheduler
pub mod Vmm
