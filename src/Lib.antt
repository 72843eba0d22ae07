-- ===== src/Lib.antt =====
-- The course projects of ECE318, operating systems: the process scheduler of Project 2, the
-- memory allocator of Project 3 and the deduplicating filesystem of Project 4, in C, as functions over
-- explicit state.
--
-- The scheduler (Project 2/schedule.c, schedule.h) keeps a run queue, a ring of tasks linked by next
-- and prev with the init task as its head, and for each task a prediction of its next burst. The
-- virtual machine calls initschedule, sched_fork, wake_up_new_task, activate_task, deactivate_task and
-- scheduler_tick; schedule chooses a task by goodness and hands over to it.
--   Scheduler/Machine   the memory, split by field: TaskStruct maps a pointer to each field; Machine
--                       adds the run queue, current and the number of clock readings so far. A run
--                       ends with a value, or with a fault (NULL, a division by 0, a value never set).
--                       sched_clock and context_switch are parameters, as the nth reading of a clock
--                       and a function on machines.
--   Scheduler/Queue     initschedule, sched_fork, wake_up_new_task, activate_task, deactivate_task;
--                       the children hold the ring invariant and what each operation does to it.
--   Scheduler/Scan      loops over a ring, for the children of Select.
--   Scheduler/Select    getMinExpBurst, getMaxWaitingInRQ, getMinGoodness, updateWaitingInRQ.
--   Scheduler/Dispatch  schedule and scheduler_tick, by parts: charge, retire, finish, hand_over.
--   Scheduler/System    the calls as a step relation, with the list of queued tasks as the abstract
--                       state, and the refinement.
--   Scheduler/Sample, Examples  a small machine, and the theorems on it.
-- Loops over the queue run nr_running rounds, as the code's do. Times are unsigned 64-bit numbers with
-- their wrap-around; the average of a burst is a double in the code, which is cut to (2 L + P) / 3 below
-- 2^53; above, what the double arithmetic gives is a parameter. Every pointer other than NULL is taken to
-- be live, and there is a single run queue. print_rq and killschedule change nothing and are left out.
--
-- The filesystem (Project 4/filesystem) stores a file of the user as a sequence of three-digit ids of
-- blocks; the blocks are files <hiddendir>/<id>.txt, and a hashes file has a line of 45 bytes for each id:
-- the id, how many pointers there are to it, and the SHA-1 of the block. our_lib.c is the block store,
-- bbfs.c has the handlers that FUSE calls.
--   Filesystem/Bytes, Decimal, Stdio  byte strings, sprintf with %03d and %02d, atoi, and what is used
--                       of the C library: the regular files by their paths, streams, the state of
--                       params.h, and runs that end with a value or a fault. A fault is undefined
--                       behaviour: a write past a buffer, NULL, a byte that was never set.
--   Filesystem/Hashes   generate_hash, compare_hashes, write_hash. Table says which table a hashes file
--                       stands for; Compare, Update and Insert relate the functions to it.
--   Filesystem/Blocks   generate_block, read_block, get_real_size, read_file, write_blocks,
--                       get_initial_id_number. Store says when a hidden directory is in order;
--                       Generated, Reuse, Fresh and Generate follow generate_block, Read is about reading
--                       files, Digest and Paths are about hashes and names.
--   Filesystem/Delete   delete_blocks, with the bytes that its stream has read ahead; Pointers, Round,
--                       Release, Loop and Outcome follow it from one line to the whole file.
--   Filesystem/Handlers bb_fullpath, bb_write, bb_read, bb_getattr, bb_fgetattr, bb_unlink, bb_truncate,
--                       and the state that main sets up; the children hold their theorems.
--   Filesystem/Service  requests of FUSE one after the other, and the abstract filesystem that they refine:
--                       files as named lists of blocks, the table, and the pointers that were lost. Sound
--                       says when a disk holds what the view says; Create, Empty, Rename, Read, Unlink and
--                       Write serve one request each, Refinement all of them; Files and Counts are about
--                       the lists and the counters. Cleanup, Lost and Start follow from the refinement.
--   Filesystem/Main     main with log_open: the checks of user and arguments, the state, and the arguments
--                       for fuse_main; Serves goes on with the requests.
--   Filesystem/Kernel   the handlers that pass a call on to the kernel, with log.c: Calls those with a
--                       result only, Buffers those that fill a buffer, Directory those for directories, and
--                       Dumps the structs in the log. The kernel is a parameter (Os), a function of the
--                       call, errno and a state of its own; so is what printing makes of errno.
--   Filesystem/Sample, Examples  a directory with one block, and the theorems on it.
-- A loop over a file has the length of the file as its fuel, which is enough since each round reads at
-- least three bytes. SHA-1, which paths can be opened, the bytes that malloc really gives, the size of a
-- stream's buffer and the entries of a directory are parameters (Env). Sizes are taken to stay below
-- 2^31, malloc not to fail, a path to be openable in every mode or in none, and a handle of a file to
-- be its path. On this disk there are no directories, permissions or links; the handlers for these are in
-- Kernel. What fstat says of a descriptor, and what log_syscall returns for an lstat that fails, are
-- parameters of bb_fgetattr and bb_getattr; the other handlers here return whether they succeed, not which
-- error they met. A request of Service writes a whole block at a multiple of 4096, and a read asks for at
-- least the length of the file; the fuel of bb_readdir is one for each entry of the directory. main goes up
-- to its call of fuse_main; what it prints and the buffering of the log are left out.
--
-- The allocator (Project 3/patch_3, a patch of the kernel's mm/slob.c) takes blocks from pages whose free
-- blocks are linked by headers inside them. With BEST_FIT, slob_page_alloc takes the block of a page that
-- leaves the least over, and slob_alloc first looks for the page that has the best block of all.
--   Slob                slob_page_alloc by parts: search, fragment_head, take_units. The memory is a map
--                       from addresses to headers, which set_slob, slob_units, slob_next and slob_last of
--                       the kernel read and write; addresses and sizes are in units of two bytes.
--   Slob/Segment        a free list as the list of blocks that it links in order
--   Slob/Search, Chosen  the loop over a page, and the block that it chooses
--   Slob/Carve, Fragment, Allocate  what becomes of the list when units are taken or a head is cut off, and
--                       these together with the loop
--   Slob/Pages          slob_alloc and calcFreeSpace; Nearest and Walk follow the search over the pages,
--                       Grow the new page, Keep that the list stays in order, and Outcome the whole
--                       function.
--   Slob/Examples       a page with three blocks, and the theorems on it.
-- A loop over a page has one round of fuel for each free block. What ALIGN loses at an address is a
-- parameter, and so is the page that the kernel gives. Not modelled are the first-fit code and the choice of
-- a list by size, which the patch shows only in part, node ids under CONFIG_NUMA, locks, debug prints, the
-- counter of allocated space, and the system calls that return the counters. The programs that test the
-- projects are not modelled.
pub mod Prelude
pub mod Scheduler
pub mod Filesystem
pub mod Slob
