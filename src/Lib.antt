-- ===== src/Lib.antt =====
-- Demand paging for the Xinu kernel of project4/xinu. The development models the virtual memory
-- subsystem and the kernel services that it stands on, and proves what the operations promise.
-- Paths below are relative to project4/xinu.
--
-- A user process has a virtual heap of 12288 pages, from virtual page 5120 on. `vmalloc` takes the
-- first run of free pages and marks it in three programmer's bits of the page table entries. The
-- first access to a page traps to `pagefault_handler`, which finds a frame by `get_phy_fr_num`: a
-- free frame of the FFS area, or one whose page it evicts to the swap area. `vfree` marks pages
-- free again, `vcreate` makes a process with its page tables and a free heap, and `kill` gives
-- back the frames of a process. The kernel below has queues in one table, a scheduler, semaphores,
-- messages, sleep, ports, buffer pools, a terminal line and a free list of memory.
--
-- Base: wrapping arithmetic on 32-bit patterns, arrays as functions, counted loops. Every C
-- integer is its bit pattern; signed comparisons read it through a bias.
--
-- Paging.Entry, Paging.Fill: include/paging.h and the entry functions of system/paging.c
-- (init_pde, set_pde, init_pte, set_pte, init_pte_no_base). Physical memory is a function from
-- word addresses. Paging.Frames: the frame tables ptab, ftab and stab, init_frames and the
-- counting functions. Paging.Alloc: get_phy_fr_num, a definition for each frame type;
-- take_ffs_frame is the FFS branch, with lru_scan, swap_slot and evict for the parts of the
-- eviction.
--
-- Vmalloc: system/vmalloc.c; scan is the search and mark the loop after it, vmalloc_rest what
-- follows the sleep. PageFault: system/pagefault_handler.c, with the value of the faulting address
-- in the field cr2 of the kernel record. Vfree: system/vfree.c; free_bits is the first loop and
-- free_frames the loops over the frames. Kill: system/kill.c. Create and Vcreate: create.c,
-- exit.c, userret.c and vcreate.c of system/; fill_entry and build_stack are shared by create and
-- vcreate, and add_space is what vcreate does behind them, with user_space for the page tables.
-- Paging.Bytes has the reads and writes at addresses that need not be those of words.
--
-- Startup: sysinit of system/initialize.c with meminit.c and the variables of clkinit.c;
-- init_procs, init_queues and init_paging are its parts in this order, and the initialisation of
-- the devices, between the last two, is an argument.
--
-- Shell: shell/lexan.c with include/shell.h; a round of its loop is lex_rest, and lex_token the
-- switch in it.
--
-- Tty, Tty.Device: the driver of the terminal line, device/tty; handle_char, edited_in, cooked_in
-- and place_char are the parts of ttyhandle_in, from the outside in. A buffer of the line is a
-- table, and a pointer into it an index; what the device is sent, and its interrupt enable
-- register, are the record uart.
--
-- Net.Packet, Net.Arp: net/arp.c with include/arp.h; arp_find is its search, ask the part of
-- arp_resolve that sends and waits, note_sender and handle_op the parts of arp_in before and
-- behind the answer to a waiting process. The Ethernet driver is an argument, and so is the packet
-- that a buffer holds. Kernel.Keeps: what code keeps that may be interrupted.
--
-- Strings: the functions of lib on bytes and strings, with memory as a table of bytes.
--
-- Buffer: bufinit.c, mkbufpool.c, getbuf.c and freebuf.c. Port: ptinit.c, ptcreate.c, ptsend.c,
-- ptrecv.c, ptreset.c, ptdelete.c, ptclear.c and ptcount.c; deliver_to and fetch_from are what
-- ptsend and ptrecv do after their wait. Process, Queue, FreeList, Kernel, Sched, Semaphore,
-- Message, Sleep: include/process.h, queue.h, memory.h, semaphore.h, resched.h, and the files of
-- system/ with the names of the functions. The kernel's variables are one record; a function that
-- may reschedule is Code, a function from the state to a run: a run ends, stops the machine, or
-- switches to another process and says how it goes on when the process is resumed. Examples: tests
-- and instances.
--
-- Bounds: the loops over tables have the constants of the source as their number of rounds. The
-- walks along a queue have as many rounds as the queue table has entries (nqent), or one more than
-- there are processes; a queue of distinct processes is shorter. The loop of semdelete has one
-- round for each count below zero and one that ends it. ptclear hands over at most PT_MSGS
-- messages, the number that ports.h gives for all ports. The loops of Strings that end at a NUL
-- take a number of rounds as an argument; more rounds than there are characters are enough. That
-- of lexan has the length of the line, since a round takes a character at least.
--
-- Uninitialised variables of the source are arguments (Locals, Garbage). Interrupt masks are not
-- modelled: the code between disable and restore runs as one step. Calls of kprintf are left out.
-- Not modelled are the assembly code, the other device drivers, the other network protocols, the
-- rest of the library, the commands of the shell, and of the start of the system the hardware
-- set-up, `nulluser` and the process `startup`.
pub mod Base
pub mod Paging
pub mod Process
pub mod Queue
pub mod FreeList
pub mod Kernel
pub mod Sched
pub mod Semaphore
pub mod Message
pub mod Net
pub mod Sleep
pub mod Kill
pub mod Buffer
pub mod Port
pub mod Startup
pub mod Shell
pub mod Tty
pub mod Strings
pub mod Create
pub mod Vcreate
pub mod Vfree
pub mod Vmalloc
pub mod PageFault
pub mod Examples
