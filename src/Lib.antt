-- ===== src/Lib.antt =====
-- Verification of the kernel under Assignment1_2/kernel, an xv6 for RISC-V with the system calls forkn,
-- waitall, memsize and the exit messages added to it.
--
-- The parts and their files. Numbers are natural numbers; where C computes in 32 or 64 bits the wrapping
-- is written out, and a negative int is its bit pattern.
--
-- Proc is kernel/proc.c and the process calls of kernel/sysproc.c. Proc/Types holds struct proc and the
-- table proc[NPROC], a list in which the index stands for the pointer. Proc/Machine is a record of what
-- proc.c calls in kalloc.c, vm.c, file.c, fs.c and log.c over an abstract state: every function and
-- every theorem takes it as a parameter. Proc/Table has procinit, wakeup, kill, killed, reparent, sleep,
-- yield and the choice of the scheduler; Proc/Alloc has allocpid, allocproc, freeproc, proc_pagetable
-- and growproc; Proc/Fork has fork and forkn; Proc/Exit has exit, exit_num and exit_msg; Proc/Wait has
-- wait and waitall; Proc/Sys has the system calls with argraw and argint of kernel/syscall.c. A call
-- that sleeps is cut into steps: a step ends with a result or with a kernel in which the process sleeps,
-- but for the sleeps inside the calls that the machine stands for: exit takes fileclose and iput as one
-- step each, in which no other process runs. Proc/Exit/Returns sets such a machine on the table of File.
--
-- Kalloc is kernel/kalloc.c. Memory is a function from addresses to words, and the list of free pages
-- runs through it. The loop of freerange has fuel, one round for each page below PHYSTOP and one more,
-- which Kalloc/Range shows to be enough.
--
-- Log is kernel/log.c on the buffer cache of kernel/bio.c as log.c sees it. Every bwrite adds the disk
-- that it leaves to a trace, and a crash leaves one of these. Log/Space runs the calls of several
-- processes in any order, as a step relation.
--
-- Spinlock is kernel/spinlock.c. acquire and release are cut at each access to the lock that another cpu
-- can see, and any number of cpus takes these steps in any order.
--
-- Bio is the list of buffers of kernel/bio.c, most recently used first, with kernel/sleeplock.c as the
-- state of a sleep lock.
--
-- Pipe is kernel/pipe.c: the ring of 512 bytes with its two wrapping counters, and the bytes between
-- them as a queue.
--
-- Str is kernel/string.c, on buffers as lists and on memory as a function.
--
-- Vm is kernel/vm.c on the memory of Kalloc, with the page table entries of kernel/riscv.h. Walks have
-- the three levels of the hardware, and the loops over pages one round for each page of the range.
-- Vm/Size has the calls that change the size of a process, Vm/Copy those that copy between user and
-- kernel.
--
-- File is kernel/file.c, the table of open files, with pipealloc of kernel/pipe.c: File/Counted and
-- File/Held set the counts of references against those who hold the files, File/Undo and File/Pipealloc
-- have the two ends of pipealloc. What fileclose calls behind its lock, pipeclose or iput, is recorded
-- and not run, so that their panics are not part of it.
--
-- Sysfile has the calls of kernel/sysfile.c on descriptors alone: argfd, fdalloc, sys_dup, sys_close and
-- sys_pipe, on the state of File. Sysfile/Descriptors sets the descriptors against the counts of
-- references.
--
-- Fs is kernel/fs.c without the inodes: Fs/Bitmap has bzero, balloc and bfree on the blocks of the disk,
-- in which the inner loop has a round for each bit of a block and the outer one for each block, the ints
-- of the code being their 32 bits; Fs/Bmap has bmap, with the addrs of an inode as an array; Fs/Path has
-- skipelem and namex, whose loop has one round more than the path has bytes, and takes the inodes as a
-- record of their type and dirlookup; Fs/Directory has dirlookup and dirlink on the entries of a
-- directory, and makes such a record of a disk.
--
-- Console is kernel/console.c: the ring of 128 bytes with its three wrapping counters. Console/Lines has
-- what the moves of the counters do to the line, Console/Edit sets consoleintr against an editor of a
-- line, Console/Read has consoleread against the queue of bytes that are ready. What procdump prints is
-- left out.
--
-- Virtio is kernel/virtio_disk.c behind its set-up: Virtio/Descriptors has the calls on the descriptors,
-- Virtio/Chains the chain of a request, Virtio/Sharing any number of requests at once, as a step
-- relation. The device is what its interrupt reads. free_chain has as many rounds as there are
-- descriptors, the interrupt as many as its counter has values.
--
-- Uart is the ring of bytes to send of kernel/uart.c, with uartputc and uartstart, and Uart/Order sets
-- it against a queue. The readings of the line status register are a list, which also bounds the loop.
--
-- User is of Assignment1_2/user: User/Grep the matcher of grep.c, User/Ulib the functions of ulib.c that
-- make no system call, User/Number printint of printf.c, User/Wc the counting of wc.c. User/Shell is the
-- parser of sh.c, on the bytes of the line that are left: each of its loops has a round for each of
-- these bytes and one more, and the calls inside each other four for each byte and four more. The
-- strings that nulterminate makes are the lists of the bytes of the words.
--
-- Prelude passes the names of the libraries on, and has the tests on numbers, arrays as lists, and
-- Outcome, the result of a function that may panic.
--
-- Outside Spinlock there are no locks, no interrupts but those of Console, Virtio and Uart, and the
-- memory order of several processors is not modelled: each function is the critical section that its
-- lock makes of it, and what it does between two sleeps is one step. Proc does not stand on Vm but on
-- its parameter. Of the file system the cache of inodes and their data are not modelled, so that reads
-- and writes of a directory do not fail but where dirlink is told so; nor are fileread and filewrite,
-- exec, the other devices, and the programs that only call the system. Assignment2 holds a second copy
-- of the kernel, without the calls added here.
mod Prelude
pub mod Str
pub mod Proc
pub mod Kalloc
pub mod Vm
pub mod Log
pub mod Pipe
pub mod Spinlock
pub mod Bio
pub mod Console
pub mod Virtio
pub mod Uart
pub mod Sysfile
pub mod File
pub mod Fs
pub mod User
