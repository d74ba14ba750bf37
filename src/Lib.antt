-- ===== src/Lib.antt =====
-- The kernel of os161/kern: its data structures, its processes, its threads and locks, and the map
-- of its physical memory, with the theorems that make them correct.
--
-- * Common holds the shared vocabulary: native numbers and lists, `Run` for a routine that returns
--   or stops the machine in a fault, reads and writes of cells, the status codes.
-- * Array is os161/kern/lib/array.c with memcpy of os161/lib/libc/memcpy.c: `create`, `getnum`,
--   `getguy`, `setguy`, `preallocate`, `setsize`, `add` and `remove` are the functions array_*.
--   Its block is a list of cells, and `none` in a cell was never written.
-- * Queue is os161/kern/lib/queue.c: the functions q_* on a ring of cells, with `grow` for q_grow.
-- * Process is os161/kern/thread/process.c with os161/kern/userprog/sys_waitpid.c and sys__exit.c.
--   The table of processes is an Array whose indices are the ids. `waitpid` is cut at its call of P
--   into `waitpid_check` and `waitpid_collect`.
-- * Thread is os161/kern/thread/thread.c and scheduler.c: `System` holds the sleepers and zombies,
--   which are Arrays, and the run queue, which is a Queue. Thread.Life has the set-up and the
--   panic of the scheduler, exorcise, and the last part of thread_fork.
-- * Synch is os161/kern/thread/synch.c. A semaphore, and a lock with a condition variable, are
--   states with the place of every thread; a step is what one thread does with interrupts off, from
--   one thread_sleep to the next. Every interleaving is a sequence of such steps.
-- * Coremap is os161/kern/vm/coremap.c and os161/kern/include/coremap.h: the entries of the map, the
--   count of free frames, and the bytes of memory that coremapFree clears.
-- * Bitmap is os161/kern/lib/bitmap.c: a byte is the list of its eight bits.
-- * Paging is os161/kern/vm/bitmap_disk.c, and from os161/kern/vm/page_replacement.c
--   ref_bit_counter and the choice of the page that evictPage evicts, on the entries of Coremap.
-- * Kheap is os161/kern/lib/kheap.c: kmalloc and kfree on pages that are cut into blocks of one size,
--   the free ones linked through their first words. It takes whole pages from any allocator with
--   the laws of PageSource, which Kheap.Pages fills with alloc_kpages and free_kpages of
--   os161/kern/vm/addrspace.c on the map of Coremap.
-- * Vm is os161/kern/vm/pagetable.c and tlb.c: page tables in two levels by address, and what a TLB
--   fault does. Vm.Regions is the region arithmetic of os161/kern/vm/addrspace.c with vm_fault,
--   os161/kern/vm/segmentation.c and os161/kern/userprog/sys_sbrk.c. Where
--   segmentation_handler ends the thread, free_pid of Process and thread_exit run, and vm_fault has
--   the outcome `exited`. New page tables come from kmalloc of whole pages on the map of Coremap.
--   as_progname and the debug output are left out.
-- * Uio is os161/kern/userprog/uio.c with os161/lib/libc/memmove.c and memcpy.c, on memory as bytes
--   by address. A long is four bytes.
-- * Copyinout is copycheck, copyin and copyout of os161/kern/lib/copyinout.c. `trapped` is the memory
--   at a fatal fault of the memcpy, which only the hardware knows.
--
-- Parameters stand for what is outside a part. `kmalloc bytes` says whether an allocation of that
-- many bytes succeeds; `sem` is what sem_create returns and `has_sleepers` what thread_hassleepers
-- answers, in the process table; `idle` lists the interrupt handlers that run while the scheduler
-- idles; evictPage is an argument of kmalloc and of the TLB faults, swap_pagein of the TLB faults and
-- thread_exit of vm_fault, and `tlb_load` writes the hardware's TLB; ram_getsize is two arguments of `bootstrap`. A thread, a semaphore
-- and an address are numbers, and 0 is NULL. A `size_t` and a `u_int32_t` wrap at 2 ^ 32; an `int`
-- that passes 2 ^ 31 stops in the fault `overflow`. An access outside an object stops in `wild`,
-- also where the machine would go on with the memory behind it.
--
-- Fuel: the doubling loops have one round more than the size wanted; the loop of thread_wakeup has
-- one more than there are sleepers; the ring is read for one round more than its size; q_addtail
-- calls itself at most once; the outer loop of coremapAllocateMultipleFrame has one round more
-- than the map has entries; the loops of uiomove and uiomovezeros have one round more than the
-- bytes asked for. The theorems show that each of these is enough, since their results have no
-- fault `spinning`; for uiomove and uiomovezeros they show it for blocks of the kernel.
--
-- Not modelled: the copies of strings between a process and the kernel; files, devices, traps and
-- assembly, which are input and output or hardware; what evictPage does with its page, swap.c,
-- as_copy, as_destroy and as_prepare_load; the stack, the name and the id of a new thread, and
-- what thread_exit gives up; user programs, and the C library but for memcpy and memmove.
pub mod Common
pub mod Array
pub mod Queue
pub mod Process
pub mod Thread
pub mod Synch
pub mod Coremap
pub mod Bitmap
pub mod Paging
pub mod Kheap
pub mod Vm
pub mod Uio
pub mod Copyinout
