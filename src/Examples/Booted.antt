-- ===== src/Examples/Booted.antt =====
-- The kernel's start on a machine with an empty memory.
use bless_os.Prelude.{ℕ, none, List, [], ◌==◌, ltb, ◌+◌, ◌-◌, ◌*◌, ◌/◌, if◌then◌else◌, replicate}
use bless_os.Prelude.Ram.{Ram}
use bless_os.Sched.{Task, ts_running}
use bless_os.Memory.{Mm}
use bless_os.Boot.{Machine}

abbrev zeros : Ram
zeros a = 0

-- The page tables of the first 8 MiB, at 0x1000 and 0x2000.
abbrev tables : Mm
tables = record {
  mem_map = zeros;
  ram = λ (a : ℕ).
      if a == 0
      then 0x1007
      else if a == 4
      then 0x2007
      else if ltb a 0x1000
      then 0
      else (a - 0x1000) / 4 * 4096 + 7;
  panics = 0;
}

abbrev task : Task
task = record {
  tss = zeros;
  tss_entry = (0, 0);
  priority = 200;
  signal = 0;
  signal_handler = zeros;
  state = ts_running;
  ldt = zeros;
  ldt_entry = (0, 0);
  next = 0;
}

abbrev machine : Machine
machine = record {
  console = record { csr_x = 3; csr_y = 9; vram = zeros; ports = [] };
  sent = [];
  idt = λ (n : ℕ). record { a = 0; b = 0 };
  keyboard_buf = record { bytes = []; head = 0; tail = 0 };
  sched = record {
    task0 = 0x9000;
    task = λ (a : ℕ). task;
    current = 0x9000;
    wait = zeros;
    gdt = zeros;
    panics = 0;
  };
  mm = tables;
  kernel = record { placement_address = 0x150010; kheap = none };
}

-- Every word of the interrupt table is the same, and zeroes stand behind it.
abbrev words : List ℕ
words = replicate 94 0x1234

abbrev behind : List ℕ
behind = replicate 418 0
