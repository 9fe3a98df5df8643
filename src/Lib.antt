-- ===== src/Lib.antt =====
-- HobOS: a small kernel for the Raspberry Pi, written in C. This library models its memory
-- allocators, its page tables, its threads with their queues and the switch between them, the
-- jobs of its worker cores, its serial console, its formatted output and its system calls.
--
-- How the parts interact. page_alloc.c hands out blocks of pages. slub.c cuts pages into objects
-- of 64 to 1024 bytes and keeps the objects of a thread in the thread's context; kmalloc and
-- kfree in mm.c choose between the two. pt.c takes pages for its tables and maps addresses; mmu.c
-- sets the registers of the translation, ioremap in mm.c maps device registers, and usr_entry.c
-- maps the user's memory. smp.c hands functions to the other cores and queues jobs for them.
-- task.c creates threads, workqueue.c keeps the threads of a core in a linked list, and sched.c
-- turns that list and switches to its head. printf.c formats what the kernel prints, and kstdio.c
-- passes strings to the driver in uart.c. syscall.c, syscall_def.c and usr_ops.c serve the user's
-- program.
--
-- How C code stands here. A function is a command (Base/Run.antt): it takes the state of its
-- component, and ends with a value and a new state, faults, or runs out of fuel. A fault is an
-- access through NULL or outside an array. An object stands in the state at its address, a
-- natural number; 0 is NULL. Integers are natural numbers or integers, with the wrap-around
-- written out where it can happen. A walk of a list that ends only at NULL takes fuel; the
-- theorems name how much is enough, which is more than the length of the list, or hold for every
-- amount. Loops with a bound take the rounds that are left.
--
-- The files:
--   Base: lists, linked lists in memory, C integers, runs of commands.
--   PageAlloc/Block, PageAlloc/Alloc: page_alloc.c and include/hobos/page_alloc.h. A block is its
--     position in the array behind fl_meta. PageAlloc/Rep says what the state stands for: for
--     each order, the blocks in its list. Lookup, Remove, Append, Split, Safety and Stuck are
--     about the searches, the removal, the insertion, the split and page_alloc. Unlink and Taken
--     are about remove_page_block, Find, Merge, Release, Second and Lost about page_free, Init and
--     Loop about the lists at the start. Stair, Newest, Descend, Buddy, Rejoin and Cycle
--     follow one block: the splits down to a request, and the merges back when it is freed. The
--     searches over the orders take at most 12 rounds, one for each order; a merge recurses at
--     most once for each.
--   Workqueue: workqueue.c and include/hobos/workqueue.h. Workqueue/Chain says which tasks a
--     queue holds, Ops and Rotate are about wq_push, wq_pop and wq_queue_next.
--   Task, Task/Threads, Task/Switch: include/hobos/task.h, task.c and sched.c, with the registers
--     of the core. Task/Access has the reads and writes of the objects, Task/Cycle is about clone
--     and kthread_queue, Task/Resume about sched_switch. The addresses that kmalloc gives clone
--     are arguments; what kmalloc changes is left out.
--   Slub, Slub/Cache, Mm: slub.c, include/hobos/slub.h, kmalloc and kfree of mm.c, on the states
--     of the page allocator and of the tasks. Slub/Order and Slub/Ready are about the choice of
--     the cache, Slub/Take and Slub/Single about allocation from a cache with several objects and
--     with one, Slub/Free about release. The loop over the orders has fuel for 32, more than the
--     sizes below a page need.
--   PageTable, PageTable/Walk: pt.c and include/hobos/lib/pt_lib.h, with the heap of kmalloc.
--     PageTable/Mmu has the translation as the processor makes it from the words of the tables.
--     Access has the reads and writes, Level one step of the walk, Map and Mapping the walk
--     through tables that exist, Fresh the walk that makes two tables, Attr is about va_set_attr,
--     Entries about create_pt_entries. Walks of children take fuel, more than a table has
--     children; the walk itself has a round for each level.
--   Mm/Bytes: memcpy and memset of mm.c, over a memory of bytes. Their calls on whole objects
--     stand as assignments.
--   Mmu, Mm/Io, UserEntry: mmu.c and include/hobos/mmu/bcm2835.h, ioremap of mm.c, and
--     usr_entry.c. Mmu/Switch is about switch_vmem and init_mmu.
--   Smp: smp.c and include/hobos/smp.h. Smp/Queue and Smp/Order are about the queue of jobs and
--     the loop of worker_process, whose fuel is more than the jobs; Smp/Session is about both
--     together. Smp/Handoff has the two parties of a handover, __setup_core and __run_core on one
--     side and __park_and_wait on the other, as steps that interleave in any order; Smp/Phases is
--     about a core that starts after __setup_core.
--   Device: io.c, mmio.c, gpio.c, timer.c and irq_bcm.c, as reads and writes of registers.
--     Device/Pins is about the configuration of pins, Clock about the timer, Version about the
--     board. Device/Drivers has the callbacks of the timer and of the interrupt controller, with
--     irq_controller.c and two functions of kernel.c, and Interrupts is about their start.
--   Uart: uart.c, kstdio.c less kprintf, the rest of gpio.c, and setup_console of kernel.c. What a
--     register gives depends on the number of reads before. Uart/Sent is about the characters on a
--     line, Console about the way from setup_console to puts. The waits take fuel, more than the
--     reads in a row that can find the line not ready. The calls of ioremap stand as the address
--     that it returns.
--   Printf: printf.c. Digits, Numbers and RoundTrip are about the digits, Format about whole
--     formats, Faults about accesses out of range.
--   Syscall: syscall.c, syscall_def.c, the table in syscall_vt.S, usr_ops.c, with kprintf of
--     kstdio.c, strcpy of mm.c, va_to_pa of pt.c, and puts as in uart.c. Syscall/Puts is about
--     syscall_puts.
--   The modules Tests run the code on small states and apply the theorems there.
--
-- Not modelled: irq.c and the assembler and start-up files; main, which calls the parts one after
-- the other; barriers, caches and the TLB; the printing of lists for debugging and most messages;
-- locks and interrupt masks, so that every run is of one core at a time, but for Smp/Handoff. The
-- number of the running core and the address of the user's program are parameters.
pub mod Base
pub mod Device
pub mod Mm
pub mod Mmu
pub mod PageAlloc
pub mod PageTable
pub mod Printf
pub mod Slub
pub mod Smp
pub mod Syscall
pub mod Task
pub mod Uart
pub mod UserEntry
pub mod Workqueue
