-- ===== src/Lib.antt =====
-- rCore: a kernel for riscv64 in Rust, with its file system.
--
-- The kernel (os/src) gives out physical frames (mm/frame_allocator.rs) by page numbers of Sv39
-- (mm/address.rs), maps virtual pages to them in tables of three levels (mm/page_table.rs), keeps
-- the areas of an address space (mm/memory_set.rs), reserves memory for a program by mmap and maps
-- it at the first page fault (syscall/mem.rs, task/mem.rs), numbers tasks and places their stacks
-- (task/id.rs), runs one task at a time from a ready queue (task/manager.rs, processor.rs, mod.rs),
-- lets tasks wait for each other by mutexes, semaphores and condition variables (sync/mutex.rs,
-- semaphore.rs, condvar.rs) and for a time (timer.rs), which take the current task off the
-- processor and put it into the ready queue again, and moves bytes between tasks through pipes
-- (fs/pipe.rs). The file system (easy-fs/src) keeps inodes and data on a block device: a cache of
-- its blocks (block_cache.rs), a bitmap (bitmap.rs) for inodes and one for data, the super block
-- and the index of a file's blocks (layout.rs), and the areas of the device (efs.rs), which uses
-- the others.
--
-- Files and what they model:
--   Prelude           what the models share: `Outcome` for code that may panic, arithmetic of
--                     `usize`, lists over the native numbers, and bits of numbers (Prelude/Bits for
--                     masks, Prelude/Digits for single bits)
--   Mm/Address        os/src/mm/address.rs; each of `PhysAddr`, `VirtAddr`, `PhysPageNum` and
--                     `VirtPageNum` is the number in it, so that `From` between them are functions
--                     on numbers: `to_virt_addr` from `usize`, `page_addr` from a page number,
--                     `page_num` from an address
--   Mm/FrameAllocator os/src/mm/frame_allocator.rs, `StackFrameAllocator`; Mm/FrameAllocator/Trackers
--                     is `FrameTracker` and `frame_alloc`, over the allocator, the bytes of memory
--                     and the list of trackers that are alive
--   Mm/PageTable      os/src/mm/page_table.rs; the frames of a table are functions from the index of
--                     an entry to its bits, beside the frame allocator, in `Memory`;
--                     Mm/PageTable/Buffers is `translated_byte_buffer` and `UserBuffer`
--   Mm/MemorySet      os/src/mm/memory_set.rs, over the page table and the frame allocator; a map of
--                     frames is a list of pages in ascending order with their frames
--   Fs/Pipe           os/src/fs/pipe.rs; `Pipe::read` and `Pipe::write` run in slices from where the
--                     task gets the processor to where it returns or yields, and other tasks run
--                     between slices only
--   EasyFs/Disk       the blocks of a device, as they are seen through the block cache, and their
--                     words
--   EasyFs/BlockCache easy-fs/src/block_cache.rs; `view` is the disk that its users see, and the one
--                     that the modules below work on
--   EasyFs/Bitmap     easy-fs/src/bitmap.rs
--   EasyFs/Layout     easy-fs/src/layout.rs; EasyFs/Layout/Io is `read_at` and `write_at` of an inode,
--                     EasyFs/Layout/Entries the entries of a directory
--   EasyFs/Efs        easy-fs/src/efs.rs
--   EasyFs/Directories  easy-fs/src/vfs.rs: the functions of `Inode` that search and list a directory,
--                     on its disk inode and the disk, and `unlink`, on the disk inodes by their
--                     numbers, since the inode that a name stands for may be the directory itself
--   Task/Id           os/src/task/id.rs
--   Task/Signals      os/src/task/signal.rs and action.rs
--   Task/Mmap         os/src/syscall/mem.rs, os/src/task/mem.rs and what they use of
--                     os/src/task/process.rs; Task/Mmap/Handlers is `handle_page_fault` and
--                     `sys_munmap`, which end with `of_file` where the code reads or writes a file. A
--                     result of -1 is `none` or `refused`
--   Task/Timers       os/src/timer.rs and `sys_sleep` of os/src/syscall/sync.rs; the heap of timers is
--                     the list of what it gives, and the time is an argument
--   Task/Scheduler    os/src/task/manager.rs, processor.rs and mod.rs: `add_task`, `wakeup_task`,
--                     `suspend_current` (`suspend_current_and_run_next`), `block_current`
--                     (`block_current_and_run_next`) and `run_next`, a round of `run_tasks`, on the
--                     ready queue, the current task and the status of each task
--   Sync/Up           os/src/sync/up.rs: `UPIntrFreeCell` and `IntrMaskingInfo`
--   Sync/Mutex        os/src/sync/mutex.rs, `MutexBlocking`
--   Sync/Spin         os/src/sync/mutex.rs, `MutexSpin`, a round of `lock` at a time
--   Sync/Semaphore    os/src/sync/semaphore.rs
--   Sync/Condvar      os/src/sync/condvar.rs; `wait` ends where the task leaves the processor, and
--                     its lock of the mutex is a step of its own
--   Syscall/Sync      os/src/syscall/sync.rs, the tables of locks of a process by their ids
-- Modules below these hold the lemmas and theorems, and Tests the runs at concrete values.
--
-- Numbers are natural numbers. A `usize` is 64 bits wide and wraps (`add_usize`, `sub_usize`,
-- `mul_usize`); a `u32` wraps as well (`add_u32` and so on). Where a theorem needs that nothing wraps
-- it says so. A panic is the value `panics`; where a call of `Vec::pop` or `push` needs the end of a
-- vector, the list's head is that end.
--
-- Fuel is used by `collect`, for a loop over a range, where the length of the range is enough, and by
-- `read_loop` and `write_loop` of a file and `buffers_from` for a user buffer, where one unit for each
-- byte is enough (one more for a write); a loop out of fuel panics, and the theorems show that these
-- do not. Every other loop is structural recursion on its
-- count.
--
-- Not modelled: growing files, paths, and making and linking files (easy-fs/src/layout.rs, vfs.rs),
-- the root inode that `create` writes, strings of user programs, the sections of the kernel and of ELF
-- files in memory sets, mappings of files where they read or write the file, processes, the delivery
-- of signals, exit, the other system calls, the network, drivers, traps, boot,
-- and the programs under user. A switch of contexts is where a task's step ends.
-- Accesses through raw pointers are not modelled, but for the zeroing of a new frame. Which bytes
-- are UTF-8 is a function `is_utf8`, an argument of the models that decode names. Whether the
-- write end of a pipe is left is a function `upgrade`, an argument of the models; whoever waits for
-- the processor gets it in any order.
pub mod Prelude
pub mod Mm
pub mod Fs
pub mod EasyFs
pub mod Task
pub mod Sync
pub mod Syscall
