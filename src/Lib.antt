-- ===== src/Lib.antt =====
-- lemon-core: a RISC-V kernel in Rust (kernel), its file system (easy-fs) and the programs on it.
--
-- Parts, and the files that model them. A directory beside a file holds what is proved about it.
--   EasyFs/Config.antt      easy-fs/src/config.rs
--   EasyFs/Bitmap.antt      easy-fs/src/bitmap.rs: Bitmap::new, alloc, dealloc, maximum, decomposition
--   EasyFs/BlockCache.antt  easy-fs/src/block_cache.rs: BlockCache and BlockCacheManager, get, sync_all
--   EasyFs/Layout.antt      easy-fs/src/layout.rs: SuperBlock, DiskInode, the counts of blocks
--   EasyFs/Layout/Tree.antt    block_id, build_tree and collect_tree of DiskInode
--   EasyFs/Layout/Resize.antt  increase_size, decrease_size and clear_size of DiskInode
--   EasyFs/Layout/Entry.antt   DirEntry
--   EasyFs/Layout/Data.antt    read_at and write_at of DiskInode
--   EasyFs/Efs.antt         easy-fs/src/efs.rs: the areas of the device, inode positions, allocation
--   Kernel/Pipe.antt        kernel/src/fs/pipe.rs: PipeRingBuffer, Pipe and its read and write
--   Kernel/Recycle.antt     kernel/src/task/id.rs: RecycleAllocator, the positions of stacks
--   Kernel/Frames.antt      kernel/src/mm/frame_allocator.rs: StackFrameAllocator, FrameTracker
--   Kernel/Address.antt     kernel/src/mm/address.rs: addresses, page numbers and ranges
--   Kernel/PageEntry.antt   kernel/src/mm/page_table.rs: PageTableEntry
--   Kernel/PageTable.antt   kernel/src/mm/page_table.rs: PageTable
--   Kernel/MapArea.antt     kernel/src/mm/memory_set.rs: MapArea, and the trackers of a PageTable
--   Kernel/MemorySet.antt   kernel/src/mm/memory_set.rs: MemorySet
--   Kernel/MemorySet/Images.antt  kernel/src/mm/memory_set.rs: new_kernel, from_elf and clone
--   Kernel/Masking.antt     kernel/src/sync/up.rs: IntrMaskingInfo
--   Kernel/Task.antt        kernel/src/task/manager.rs, processor.rs and mod.rs: the ready queue
--   Kernel/Timer.antt       kernel/src/timer.rs, and sys_sleep of kernel/src/syscall/sync.rs
--   Kernel/Process.antt     fork, the end of a process and sys_waitpid: kernel/src/task/mod.rs, pcb.rs and
--                           manager.rs, kernel/src/syscall/process.rs
--   Kernel/Threads.antt     kernel/src/syscall/thread.rs
--   Kernel/Sync.antt        kernel/src/sync/mutex.rs, semaphore.rs and condvar.rs
--   Kernel/Slots.antt       the tables of kernel/src/task/pcb.rs: alloc_fd, and new entries
--   Kernel/Calls.antt       kernel/src/syscall/sync.rs, and the calls of kernel/src/syscall/fs.rs that
--                           change the table of open files alone
--   Kernel/Paths.antt       kernel/src/fs/mod.rs and inode.rs: get_full_path, find and open_file
--   Kernel/OsInode.antt     kernel/src/fs/inode.rs: OSInode with read_all, read and write
-- Base.antt passes on the library names, tests on numbers, lists and the reading of panics.
--
-- The file system reads and writes blocks through the block cache; above EasyFs/BlockCache the bitmap,
-- the trees of indirect blocks and the areas take the device as a function from block numbers. The
-- layout takes new block numbers from the bitmap by way of Efs, and gives back what clear_size and
-- decrease_size drop. In the kernel, Calls goes through Slots to the objects of Sync, which park and
-- wake tasks of Task; a timer wakes its task in the same way. A MemorySet drives the MapAreas, these
-- the PageTable, and it the bytes of physical memory and the frame allocator of Frames; the trackers
-- of frames lie in the table, as in the program. A process gives its thread ids back to Recycle and
-- its tasks to Task.
--
-- State is passed explicitly. A panic (a failed assertion, an index out of range, an unwrap of None) is
-- `none` of Option. Numbers are natural numbers; where the program wraps or masks, the definition has
-- the remainder. A call that gives the processor away ends there, and its loop is taken up in a further
-- pass; a run over a list of turns or calls stands for a schedule. A for loop is structural recursion
-- on the rounds that it has: 128 entries of an indirect block, the blocks of a bitmap, the bytes of a
-- ring; build_tree and collect_tree recurse on the levels left, at most 3. A while loop over the direct
-- blocks has its number of rounds computed from its bounds. The walk over a range of pages has one
-- round more than it has pages, with which it ends. The loops of read_at and write_at have as many
-- rounds as there are bytes left, of which each takes one at least; check_timer has one round more than
-- there are timers, and read_all one more than there are bytes left.
--
-- The kernel's processes are one record of functions from the number of a control block to its field,
-- since blocks refer to each other and are shared. Parameters are the parser of ELF files (xmas_elf),
-- whose result is a list of program headers with the bytes of the file, the addresses that the linker
-- sets, the file system that open_file and find walk through, the entries that the heap has room for in
-- a table that sys_dup2 makes larger, and for sys_waitpid whether the address of the exit code
-- translates and how many references to a process there are from other lists and calls under way.
--
-- Not modelled: drivers, boards, traps, start-up and assembly, which work on device registers; the
-- virtual file system between DiskInode and OSInode; user buffers and the kernel heap; exec and new of
-- processes, and signals; the user library, the programs and the tool that writes an image. Casts of
-- bytes to types are left to the types' models.
pub mod Base
pub mod EasyFs
pub mod Kernel
