-- ===== src/Kernel.antt =====
-- The start of the kernel: `kernel_main` and `kalloc_test` of os/src/kernel/kernel.c with
-- `arch_early_setup` of os/src/arch/x86/setup.c, over the state of every component. The calls between
-- the components that their own models take as arguments are made here: pages for stacks, blocks for
-- the process list, the addresses that are mapped.
pub mod Linked
pub mod Stacks
pub mod Processes
pub mod Created
pub mod Main
pub mod Tasks
mod Tests
use abel_os.Base.{
  take, ◌++◌, ◌-◌, ◌%◌, ℕ, ◌+◌, ◌*◌, Bool, true, false, List, [], ◌∷◌, Option, none, some, ◌==◌,
  if◌then◌else◌, get_or,
}
use Prim.Native.Char.{code}
use Prim.Native.String
use Prim.Native.String.{String}
use abel_os.Pmm.{PhysicalMemoryMap, remap_self_data}
use abel_os.PmmInit.{BootInfo, KernelImage, arch_pmm_init}
use abel_os.Vmm.{arch_vmm_init, map_core}
use abel_os.Memory.{Memory, with_page, kalloc_pages, kfree_pages}
use abel_os.Proc.{Words, proc_create_process}
use abel_os.Fifo.{fifo_init}
use abel_os.Scheduler.{Sched, Effect, fifo_ops, add_process, start}
use abel_os.Scheduler
use abel_os.Printk
use abel_os.Printk.{Console, printk, printk_setup, clear_screen}
use abel_os.Platform.{
  Symbols, Cpu, Timer, arch_init_int_subsystem, pit_init, pic_mask_all, pic_unmask_all,
}
use abel_os.Interrupts.{Tables, register_irq_handler, register_irq_post_routine}
use abel_os.Input.{InputQueue, queue_init}

-- What the linker fixes: the image, the stubs, and the addresses of functions. `video` are the 4000
-- bytes of the screen, and `ram` the bytes at a physical address.
pub record Image : Type 0 where
  pub kernel : KernelImage
  pub symbols : Symbols
  pub scheduler_exit_current : ℕ
  pub main : ℕ
  pub task2 : ℕ
  pub kalloc_test : ℕ
  pub idle : ℕ
  pub pit_irq_handler : ℕ
  pub ps2_keyboard_irq_handler : ℕ
  pub irq_handler : ℕ
  pub video : List ℕ
  pub ram : ℕ → ℕ → List ℕ

-- `words` is what stands in the kernel's stacks.
pub record Machine : Type 0 where
  pub memory : Memory
  pub words : Words
  pub sched : Sched
  pub console : Console
  pub cpu : Cpu
  pub timer : Timer
  pub tables : Tables
  pub queue : InputQueue

infixl 5 ◌>>=◌
abbrev pub ◌>>=◌ {ℓ κ} : {A : Type ℓ} {B : Type κ} → Option A → (A → Option B) → Option B
none >>= f = none
some a >>= f = f a

abbrev bytes_of : String → List ℕ
bytes_of String.[] = []
bytes_of (String.◌∷◌ c s) = code c ∷ bytes_of s

-- `printk` with arguments.
abbrev pub print_with : List ℕ → String → Machine → Option Machine
print_with args text m = do
  c ← printk (record { word = λ i. get_or args i 0; string_at = λ p. [] }) (bytes_of text) m.console
  some (record m { console = c })

abbrev pub print : String → Machine → Option Machine
print text m = print_with [] text m

abbrev pub on_memory : Machine → Memory → Machine
on_memory m s = record m { memory = s }

-- `vmm_map_core`
abbrev map_range : ℕ → ℕ → Machine → ℕ × Machine
map_range base len m =
    let r = map_core base len m.memory.space in (r.0, on_memory m (record m.memory { space = r.1 }))

-- The bytes behind the mapping of the bitmap, which opens onto the start of its page.
abbrev bytes_behind : Image → PhysicalMemoryMap → List ℕ
bytes_behind k m =
    let over = m.bitmap_phy_addr % 4096 in
    if over == 0
    then m.bytes
    else take m.bitmap_len (k.ram (m.bitmap_phy_addr - over) over ++ m.bytes)

-- `none` where the search for the bitmap's place does not end.
pub arch_early_setup : Image → BootInfo → Machine → Option Machine
arch_early_setup k b m = do
  map ← arch_pmm_init k.ram k.kernel b m.memory.map
  let space = arch_vmm_init k.kernel m.memory.space
  let r = map_core map.bitmap_phy_addr map.bitmap_len space
  some (
      on_memory m
        (record m.memory { map = remap_self_data r.0 (bytes_behind k map) map; space = r.1 }))

-- `printk_setup`, which maps the screen.
pub setup_console : Image → Machine → Machine
setup_console k m =
    let m' = (map_range 0xb8000 (2 * 80 * 25) m).1 in
    record m' { console = printk_setup k.video m'.console }

pub clear_console : Machine → Machine
clear_console m = record m { console = record m.console { video = clear_screen m.console.video } }

-- `arch_init_int_subsytem` with the lines that it and `idt_init` print, which nothing between them reads.
pub init_int_subsystem : Image → Machine → Option Machine
init_int_subsystem k m = do
  m ← print " * INIT IDT\n" m
  m ← print "[ IDT_INIT ] Begin\n" m
  m ← print "[ IDT_INIT ] Descriptor ready\n" m
  m ← print "[ IDT_INIT ] Intel reserved 32 entries ready\n" m
  m ← print "[ IDT_INIT ] All entries ready\n" m
  m ← print " * IDT TABLE INITIALIZED\n" m
  m ← print " * REMAP IRQs\n" m
  m ← print " * MASK ALL IRQs\n" m
  m ← print " * STI\n" m
  some (record m { cpu = arch_init_int_subsystem k.symbols m.cpu })

pub input_subsystem_init : Machine → Option Machine
input_subsystem_init m = do
  m ← print " [ INPUT_MANAGER ] Setting up input queue\n" m
  print " [ INPUT_MANAGER ] Queue setup correctly\n" (record m { queue = queue_init m.queue })

-- `pit_init` with its handler, `IRQ_PIT` being 0.
pub timer_init : Image → Machine → Option Machine
timer_init k m = do
  t ← pit_init m.timer
  some (record m { timer = t; tables = register_irq_handler 0 k.pit_irq_handler m.tables })

-- `IRQ_KEYBOARD` is 1.
pub ps2_keyboard_init : Image → Machine → Machine
ps2_keyboard_init k m = record m {
  tables = register_irq_handler 1 k.ps2_keyboard_irq_handler m.tables;
}

pub enable_interrupts : Machine → Machine
enable_interrupts m = record m { cpu = record m.cpu { outs = pic_unmask_all m.cpu.outs } }

pub disable_interrupts : Machine → Machine
disable_interrupts m = record m { cpu = record m.cpu { outs = pic_mask_all m.cpu.outs } }

-- `proc_create_process` with its page: the top of the stack.
pub create_process : Image → ℕ → Machine → ℕ × Machine
create_process k p_start m =
    let r = with_page k.kernel m.memory in
    let f = proc_create_process k.scheduler_exit_current r.0 p_start m.words in
    (f.0, record m { memory = r.1; words = f.1 })

-- `sizeof(struct pcb)` and `sizeof(struct pcb_list)`
abbrev pub pcb_size : ℕ
pcb_size = 20

abbrev pub node_size : ℕ
node_size = 8

-- `scheduler_add_process` with the blocks that the policy asks for. `none` is a fault in `kalloc`.
pub add_to_scheduler : Image → (stack priority : ℕ) → Machine → Option Machine
add_to_scheduler k stack priority m = do
  (copy, s) ← kalloc_pages k.kernel pcb_size m.memory
  (node, s') ← if copy == 0 then some (0, s) else kalloc_pages k.kernel node_size s
  some (record m { memory = s'; sched = add_process fifo_ops copy node stack priority m.sched })

pub start_process : Image → ℕ → Machine → Option Machine
start_process k p_start m = let r = create_process k p_start m in add_to_scheduler k r.0 0 r.1

-- `scheduler_init` for a null argument. Nothing calls the policy's own `init`.
pub scheduler_init : Machine → Machine
scheduler_init m = record m { sched = Scheduler.init m.sched }

-- `scheduler_start`, with the routine that it registers.
pub scheduler_start : Image → Machine → Option (Machine × List Effect)
scheduler_start k m = do
  (s, fx) ← start fifo_ops m.sched
  let tables =
      if s.current == 0 then m.tables else register_irq_post_routine 0 k.irq_handler m.tables
  some (record m { sched = s; tables = tables }, fx)

-- `kernel_main` from `scheduler_init` on.
pub start_processes : Image → Machine → Option (Machine × List Effect)
start_processes k m = do
  m ← start_process k k.main (scheduler_init m)
  m ← start_process k k.task2 m
  m ← start_process k k.kalloc_test m
  m ← start_process k k.idle m
  scheduler_start k m

-- The part in front of it.
pub setup : Image → BootInfo → Machine → Option Machine
setup k b m = do
  m ← arch_early_setup k b m
  m ← print "Abel-OS\n\n\t" (clear_console (setup_console k m))
  m ← print "Welcome to my operating system!\n\n" m
  m ← print " [ SETUP ] Setup Complete OK!\n" m
  m ← init_int_subsystem k m
  m ← input_subsystem_init m
  m ← timer_init k m
  some (enable_interrupts (ps2_keyboard_init k m))

-- Behind it stand the lines and the loop for a scheduler that returned.
pub kernel_main : Image → BootInfo → Machine → Option (Machine × List Effect)
kernel_main k b m = do m ← setup k b m; start_processes k m
