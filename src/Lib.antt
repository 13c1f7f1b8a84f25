-- ===== src/Lib.antt =====
-- A verification library for the xv6 kernel with containers. Each part of the kernel that is
-- modelled has a module, named for it, whose definitions translate the C functions of the same names
-- (camel case becomes snake case: `createContainer` is `create_container`).
--
--   Base       natural numbers, Boolean tests, arrays as lists, C results, and runs that may panic
--   Kalloc     kalloc.c: the physical page allocator, its free list threaded through the pages
--   Vm         vm.c: page directories and tables in the allocator's memory, address spaces
--   Kernel     proc.h, and the globals of proc.c: the process and container tables, their locks
--   Proc       proc.c: allocproc, wakeup, kill, sched, yield, sleep, growproc
--   Container  proc.c: creating, destroying, joining and leaving containers, container_malloc
--   Scheduler  proc.c: a round of scheduler, container by container
--   Life       proc.c: wait and exit
--   Str        string.c, with stosb and stosl of x86.h
--   Pipe       pipe.c: the circular buffer between two ends
--   Files      file.c: the table of open files
--   Fs         fs.c: the bitmap of blocks, inodes and their cache, their content, directories, paths
--   Sysfile    sysfile.c, and the rest of file.c: descriptors, reading and writing, names of files
--   Console    console.c: keyboard input, the screen, cprintf
--   Digits     the digits of numbers, for the two functions printint
--   User       ulib.c, printf.c, the matcher of grep.c, and the parser of the shell, sh.c
--   Syscall    syscall.c: the arguments of system calls
--   Sysproc    sysproc.c: system calls on processes and containers
--   Bio        bio.c: the cache of disk blocks, bget and brelse
--   Log        log.c: group commit, recovery, and the admission of operations
--   Spinlock   spinlock.c: a spin lock that any number of CPUs use
--   Tests      runs at fixed inputs
--
-- Container works on the state of Kernel and calls `kill` and `myproc` of Proc and `kalloc` of
-- Kalloc; allocproc calls `kalloc` too. Scheduler and Life work on the same state; the calls of exit
-- and wait into file.c, fs.c and vm.c are arguments. Pipe and Log have states of their own: what
-- they call of proc.c is `wakeup`, which is recorded, and `sleep`, which ends the modelled call in a
-- result that says with what the call goes on.
--
-- Fs is over the contents of blocks that bread shows, and records the calls of log_write. Each block
-- is a function from offsets to cells, and a cell holds the byte, short or uint that the code stores
-- at that offset; the code reads every cell at the width at which it is written. An inode pointer is
-- a place in the inode cache. A sleep lock is a flag, and waiting for one that the process holds
-- itself, for ever, is a fault. Sysfile works on the states of Fs and Files together; the drivers,
-- begin_op and end_op, and the calls into pipe.c are an interface, a record of functions. The
-- arguments of a system call are passed as fetched.
--
-- Vm works on the state of Kalloc: a page directory and its tables are words of pages that kalloc
-- gave, at the addresses that the code computes, and a null pointer is 0. A user page's bytes are
-- bytes of the words. loaduvm works on the state of Fs too, and growproc of Proc calls allocuvm and
-- deallocuvm on the memory of its kernel. The messages of allocuvm are left out.
--
-- Spinlock has a lock and any number of CPUs, which take turns in any order, after every access that
-- the functions of a lock make; a schedule is a list of turns. The other modules use a lock as a
-- flag of one CPU.
--
-- Modelling. An operation takes its state and gives an `Outcome`: `ok` with the new state, `panic`
-- where the code calls panic, `fault` where it uses an index outside an array or a null pointer. A
-- lock is a flag that says whether this CPU holds it, so that acquiring it twice panics as in
-- `acquire`, and `ncli` counts the locks held. One CPU runs each operation; what other processes do
-- while `sched` runs them is an argument of the definitions. A pointer to slot i of the process
-- table is i + 1, and 0 is null. Arrays are lists of any length. 32-bit counters wrap around.
--
-- Loops are recursion on the array, on a count, or, in freerange, on fuel: vend / PGSIZE + 1
-- rounds, which suffice since every round moves on by a page, or, in readi, writei, filewrite and
-- namex, on the number of bytes or characters left, of which every round takes one at least. The
-- loops of vm.c have a round for each page of the range, and, in mappages, around the end of the
-- address space; sizes stay below 2^32 - PGSIZE, so that their counters do not wrap. The functions
-- of the shell's parser that call each other have four calls for each character and four more:
-- each block, pipe and list takes a character, and is at most four calls deep. The disk writes of
-- the log spend `power`, the number of writes before the power fails, and no write happens when it
-- is 0.
--
-- Not modelled: the boot code, the drivers of the disk, the keyboard and the serial port, traps
-- and context switches (assembly and hardware registers); switching to an address space (register
-- loads); exec, fork; the set-up of the buffer cache; sys_exec and sys_pipe; the dispatch of
-- system calls; umalloc.c; the image builder; and the user programs but for grep's matcher and the
-- shell's parser.
pub mod Base
pub mod Kalloc
pub mod Vm
pub mod Kernel
pub mod Container
pub mod Log
pub mod Pipe
pub mod Proc
pub mod Str
pub mod Tests
pub mod Scheduler
pub mod Life
pub mod Files
pub mod Syscall
pub mod Sysproc
pub mod User
pub mod Digits
pub mod Console
pub mod Fs
pub mod Sysfile
pub mod Spinlock
pub mod Bio
