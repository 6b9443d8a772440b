-- ===== src/Kernel/Tests.antt =====
-- The start of a small machine.
use abel_os.Base.{◌+◌, ◌≡◌, refl, List, [], some, none, false}
use abel_os.Memory.Sample
use abel_os.Memory.Sample.{memory, memory-IsMemory, memory-HasSupply}
use abel_os.Scheduler.{Effect}
use abel_os.Kernel.{Image, Machine, start_processes}
use abel_os.Kernel.Main.{IsStarted, start_processes-IsStarted}

abbrev image : Image
image = record {
  kernel = Sample.image;
  symbols = record {
    isr = λ i. 0x1000 + i;
    irq = λ i. 0x2000 + i;
    default_isr = 0x3000;
    idt_addr = 0x4000;
  };
  scheduler_exit_current = 0x5000;
  main = 0x5100;
  task2 = 0x5200;
  kalloc_test = 0x5300;
  idle = 0x5400;
  pit_irq_handler = 0x5500;
  ps2_keyboard_irq_handler = 0x5600;
  irq_handler = 0x5700;
  video = [];
  ram = λ a n. [];
}

abbrev machine : Machine
machine = record {
  memory = memory;
  words = λ a. 0;
  sched = record { procs = []; current = 7; last_pid = 9; exit_runtime = 0 };
  console = record { video = []; cur_pos_x = 0; cur_pos_y = 0; outs = []; stray = [] };
  cpu = record { idt = []; idtr = none; outs = []; interrupts = false };
  timer = record { ticks_from_system_start = 0; current_interrupt_freq_hz = 100; outs = [] };
  tables = record { irq_handlers = []; irq_post_routine = [] };
  queue = record { entries = []; head = 0; tail = 0 };
}

start_processes-IsStarted_example :
    (t : Machine) × (fx : List Effect) × (start_processes image machine ≡ some (t, fx))
    × IsStarted image 5 t fx
start_processes-IsStarted_example =
    start_processes-IsStarted image 5 machine refl memory-IsMemory memory-HasSupply refl
