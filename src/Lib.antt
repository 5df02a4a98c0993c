-- ===== src/Lib.antt =====
-- bless_os: a model of the kernel's core and proofs about it.
--
-- The kernel boots on one processor. The clock interrupt (src/kernel/timer.c) counts, ages the tasks and
-- calls the scheduler (src/kernel/sched.c). The keyboard interrupt (src/kernel/keyboard.c) turns scan codes
-- into characters, which go through the byte rings (src/kernel/cyclic_buffer.c) of the tty
-- (src/kernel/tty.c) to the text screen (src/kernel/console.c). no_page (src/mm/memory.c) takes a page from
-- the page map and enters it in the page tables; do_page_fault of src/kernel/isr.s calls it on a page fault,
-- with cr2 as its first argument and eax as its second, the address. The kernel's own pages take their frames from a
-- bitmap (src/kernel/paging.c). The start of the kernel (src/init/print.c) puts pages under the heap
-- (src/kernel/kheap.c), whose blocks lie in memory with a header and a footer each, and which keeps its
-- holes in a sorted array (src/kernel/ordered_array.c). An exception prints the registers
-- (src/kernel/printk.c) and halts (src/kernel/exceptions.c). Disk requests wait in queues (src/drivers/hd.c) for the disk controller
-- (src/drivers/pata.c), and the blocks of the disk are to be cached (src/drivers/buffer.c).
--
-- The files. Each component's file has its state as a record and one function per function of the source,
-- under the same name; a function that updates the state returns the new state beside its result. The
-- modules below it hold the proofs, named for what they prove.
--   CyclicBuffer   src/kernel/cyclic_buffer.c: circular_buf_t, cb_init, cb_push, cb_pop, cb_is_full,
--                  cb_is_empty, cb_get_count
--   Mem            src/kernel/mem.c: memcpy, memset, memsetw
--   Console        src/kernel/console.c: print_c, set_cursor, get_cursor, scroll_down, clear_screen,
--                  console_init
--   Tty            src/kernel/tty.c: tty_write, parse_key, do_tty_interrupt
--   Keyboard       src/kernel/keyboard.c: do_kb, kb_install and the three key tables (Keyboard/Maps)
--   Memory         src/mm/memory.c: get_free_page, put_page, get_page_addr, free_page, remove_page, no_page,
--                  calc_mem
--   Sched          src/kernel/sched.c: schedule, sleep_on, wake_up, new_task, set_tss_ldt_desc,
--                  sched_init; Sched/Init has the initial task
--   Timer          src/kernel/timer.c: do_timer, timer_install
--   OrderedArray   src/kernel/ordered_array.c: insert_ordered_array, lookup_ordered_array,
--                  remove_ordered_array, place_ordered_array
--   Pata           src/drivers/pata.c: pata_wait, hd_rw, is_hd_busy, is_hd_drq and the resets
--   Hd             src/drivers/hd.c: the requests and their queues, up to submit_request
--   Paging         src/kernel/paging.c: set_frame, clear_frame, find_free_frame, alloc_new_page, free_page;
--                  Paging/Directory has get_page, switch_page_directory and initialise_paging
--   Printk         src/kernel/printk.c: parse_hex, parse_num, printk
--   Kheap          src/kernel/kheap.c: the blocks and create_heap; Kheap/Resize has expand and contract,
--                  Kheap/Alloc find_smallest_hole and alloc, Kheap/Free free, Kheap/Placement kmalloc and
--                  its variants; Kheap/Blocks is the heap as a row of blocks, Kheap/Valid its invariant
--   Boot           src/init/print.c: main, up to the heap, and what it tries with the heap
--   Buffer         src/drivers/buffer.c: remove_from_lists and getblk, on a store of buffers
--   Exceptions     src/kernel/exceptions.c: the handlers, info, traps_init
--   Prelude        what the others share; Examples, the theorems on concrete states
--
-- Conventions. A byte or a word is a number, with its wrap-around written out. A pointer is an address with
-- 0 for NULL, or an Option where the code only tests it. Memory is a function from addresses to cells. What
-- `outb` sends is a list, newest write first; what `inb` reads is an argument. `halt()` and an access outside
-- of what the code owns are the results `halted` and `fault`. The messages of the other components are no
-- part of them; a message at KPL_PANIC, which does not stop the kernel, counts up `panics` where the
-- state has it.
--
-- The start. The page tables that main finds are those of src/boot/setup.s, which maps the first 8 MiB to
-- themselves (SetUp of Boot/Pages); the interrupt table is the memory from isr_table of src/kernel/isr.s on,
-- 94 words of the table and what stands behind it. A write to an address without a page is a fault of the
-- model, since do_page_fault does not return to it.
--
-- Fuel. The loop of parse_key runs on 1024 rounds: the read queue holds fewer bytes, and the loop never puts
-- one in. The walks along the tasks run on fuel that is an argument, and end when it is more than the number
-- of tasks. The loop of pata_wait runs on 6 rounds, and always ends within them. parse_num runs
-- on ten, the decimal digits of a word. alloc, which calls itself when it has grown the heap, runs on fuel
-- that is an argument; one round is enough where a hole is large enough, two where there is none. The other loops count down, or run
-- the rounds that their test leaves.
--
-- The heap's proofs are about a heap with its blocks side by side: alloc where a hole is large enough or
-- where there is no hole, and free of a block that does not end the heap. What alloc does to grow a heap
-- that has holes, free at the heap's end and contract are modelled, with nothing proved of them.
--
-- Not modelled: the wheel that main turns on the screen when it has started, and inline assembly: the
-- processor's switch to another task, the entry code of the interrupts (src/kernel/isr.s), the block transfers of the disk, the assembly version of scrolling.
pub mod Prelude
pub mod CyclicBuffer
pub mod Mem
pub mod Console
pub mod Tty
pub mod Keyboard
pub mod Memory
pub mod Sched
pub mod Timer
pub mod OrderedArray
pub mod Paging
pub mod Printk
pub mod Kheap
pub mod Boot
pub mod Exceptions
pub mod Buffer
pub mod Pata
pub mod Hd
mod Examples
