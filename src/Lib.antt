-- ===== src/Lib.antt =====
-- A verification library for the Nachos teaching operating system of this repository: a kernel in C++
-- (threads/, filesys/, userprog/) on a simulated MIPS machine with its devices (machine/, network/).
--
-- The parts and how they interact. The scheduler (threads/scheduler.cc) keeps one ready list for each of
-- three priorities, made of the keyed lists of threads/list.h. Semaphores, locks and condition variables
-- (threads/synch.cc) put threads to sleep on such lists and hand them back to the scheduler; a lock also
-- moves its holder between the ready lists, against priority inversion. The simulated interrupts
-- (machine/interrupt.cc) advance the clock and run handlers from a list that is sorted by time. The file
-- system (filesys/filesys.cc) keeps a bit map of the free sectors (userprog/bitmap.cc), one directory
-- (filesys/directory.cc), and a header per file that lists its sectors (filesys/filehdr.cc). The machine
-- reads and writes user memory through a page table or a TLB (machine/translate.cc, machine/machine.cc), and
-- executes instructions one by one (machine/mipssim.cc). Threads (threads/thread.cc) get the CPU from the
-- scheduler; a thread with an address space (userprog/addrspace.cc) runs a user program, whose system calls
-- (userprog/exception.cc) work on open files (filesys/openfile.cc). The disk (machine/disk.cc), the timer
-- (machine/timer.cc) and the network (machine/network.cc) schedule interrupts; mailboxes (network/post.cc)
-- send messages over the network.
--
-- Which file models which part, with the functions it holds:
--   Prelude/            shared lists, bits, integers, C strings, and `do` on an ASSERT that may fail
--   Userprog/BitMap     userprog/bitmap.cc: BitMap, Mark, Clear, Test, Find, NumClear
--     View, Find, Fresh the set that a map stands for; the search and the count; the constructor
--   Userprog/AddrSpace  userprog/addrspace.cc: AddrSpace, CleanMyBitmap, InitRegisters, RestoreState
--     Frames, Loading, Loadable  the frames of a page table; the loading of a program next to others
--   Userprog/User       userprog/user.cc: readStrFromUsr, readStrFromUsrSpecial, readBuffFromUsr, writeBuffToUsr
--   Userprog/Processes  userprog/exception.cc: do_Exec, SC_Exec, SC_Join, SC_Exit, SC_Halt; Thread::Join and Finish
--     Exec, Exit, Join  a process that is started, that leaves, and that is waited for
--   Userprog/SynchConsole  userprog/SynchConsole.cc: readConsole, writeConsole
--     Reading, Writing  what is read, and what is shown
--   Userprog/Exception  userprog/exception.cc: AssignId, and SC_Create, SC_Open, SC_Close, SC_Read, SC_Write
--     Descriptors, Files  the table of descriptors; SC_Read of a file
--   Filesys/Directory   filesys/directory.cc: FindIndex, Find, Add, Remove, List
--     Lookup, Release   the map from names to sectors that a table stands for; removal from it
--   Filesys/FileHeader  filesys/filehdr.cc: Allocate, Deallocate, ByteToSector, FileLength
--     Sectors, Release  which sectors a header claims; how they are given back
--   Filesys/FileSystem  filesys/filesys.cc: the constructor that formats, Create, Open, Remove
--     Consistent        the invariant of the disk; Format, Create, Remove: the operations and it
--   Filesys/OpenFile    filesys/openfile.cc: ReadAt, WriteAt, Read, Write, Seek
--     Contents          the bytes of a file, and the loops over its sectors
--     Reading, Writing, RoundTrip  what is read and written, and read after it is written
--     Claims, Isolation  files that share a disk
--   Filesys/Transfer    filesys/fstest.cc: Copy, Print; RoundTrip: their loops; Files: over the file system
--   Filesys/SynchDisk   filesys/synchdisk.cc: ReadSector, WriteSector, RequestDone
--     Atomic            that calls of several threads do not mix
--   Threads/KeyedList   threads/list.h: Append, Prepend, Remove, SortedInsert, SortedRemove, IsEmpty, Apply
--     Sorted            the order that SortedInsert keeps
--     Cells             the same operations on cells with pointers; the address of a new cell is an argument,
--                       and the fuel of the loop of SortedInsert is the number of its rounds
--       Segment, Insert, Loop, Refine, Operations, Sorted  one operation after the other; Simulation: all of them
--   Threads/Scheduler   threads/scheduler.cc: ReadyToRun, FindNextToRun, ChangeQueuePriority
--     Order             the choice of a thread
--     Change, Dropped   a change of priority, of a thread at the head of its list or further down
--   Threads/Synch       threads/synch.cc: Semaphore, Lock, Condition
--     Semaphores        threads on one semaphore, in any order of steps
--     Exclusion         threads at a lock, in any order of steps; Guard, Moves, Safety: that it excludes
--     Findings          where locks and condition variables do not do what they are for
--   Threads/Thread      threads/thread.cc and Scheduler::Run: Fork, Yield, Sleep, Finish, the user registers
--     Switch            what Run leaves
--     RoundRobin, Registers  threads that take turns; user registers over the turns of others
--   Threads/Monitor     code under a Lock, as steps of the thread that holds it
--     Guarded           what the lock gives to such code
--     Port, SynchList   Puerto of threads/synch.cc; threads/synchlist.h; Order: that they keep the order
--   Machine/Interrupt   machine/interrupt.cc: Schedule, CheckIfDue, OneTick, Idle, SetLevel, Enable
--     Due               which interrupts have fired when a loop is through
--   Machine/Memory      machine/machine.cc and machine/translate.cc: registers, Translate, ReadMem, WriteMem
--     Translate, Access  where a translation leads; what is written is read back
--   Machine/Mips        machine/mipssim.cc and machine/mipssim.h: the instructions
--     Decode            the tables and Instruction::Decode
--     Multiply          Mult; Rounds, Product: what its loop and the whole compute
--     Alu, Execute      the cases of OneInstruction, and OneInstruction
--     Shifts            decoding of the register format, and shifts to the right
--   Machine/Disk        machine/disk.cc: ComputeLatency, ReadRequest, WriteRequest, HandleInterrupt
--     Latency, Requests  when a request is done; requests one after the other
--   Machine/Timer       machine/timer.cc: the constructor, TimerExpired, TimeOfNextInterrupt
--   Machine/Console     machine/console.cc: PutChar, GetChar, CheckCharAvail, WriteDone
--   Machine/Network     machine/network.cc: Send, SendDone, CheckPktAvail, Receive
--   Network/Post        network/post.cc: Mail, MailBox, PostOffice
--     Delivery          a message from one machine to another
--   Tests/              concrete inputs
--
-- How state and failure are modelled. A member function is a function from the state that it reads and
-- writes; `none` is an ASSERT that fails, or an access with no defined meaning (an array index out of
-- range, a member of NULL). A List is the sequence of its elements from `first` on. A thread, a handler
-- and its argument are numbers that stand for pointers. What `new` finds in memory is a parameter. The
-- file system sees the disk through what the kernel stores on it, so `FetchFrom` and `WriteBack` read and
-- write fields; open files and the disk itself see its sectors as bytes. `SWITCH` goes on where another thread
-- stopped, so `Run` is in two parts, and a thread keeps the point where it goes on.
-- Code under a lock is a relation between the places of its thread: between two places other threads may
-- run, as far as the lock lets them. What such code did is kept in lists beside its data.
-- `Yield` and `Fork` end in SetLevel, which calls OneTick where it turns the interrupts on. What OneTick does
-- to the threads is a parameter of theirs, `one_tick`: Machine/Interrupt has OneTick itself, for any handlers.
-- A position in a file and a sum with it are `int`s: beyond them the model fails, as the source may do anything.
-- Sizes, keys and clock ticks are taken to be no negative numbers, and the clock does not overflow. A
-- system call of the simulation (a handler, the thread switch) is a parameter; `Behaves` in
-- Machine/Interrupt/Due states what handlers owe to the loops that call them.
--
-- Fuel and bounds. `check_all` takes more fuel than interrupts are due; `rotate` takes more than the list
-- has threads behind its head. Both are proved to be enough where a theorem uses them. The other loops
-- run over a table, a count or a list; `Mult` makes at most 32 rounds. `skip_blanks` takes more fuel than
-- there are blanks before an argument of SC_Exec; no theorem speaks of it.
--
-- What is not modelled: the endless loop of Machine::Run (and StartProcess, which ends in it), threads'
-- stacks beyond the word that guards them, SWITCH itself, sockets and files of the host (machine/sysdep.cc),
-- the preemption by another process of the host (threads/preemptive.cc), the start of the kernel
-- (threads/system.cc, threads/main.cc), and the tests, which are input and output or glue; bin/ holds
-- vendored tools.
pub mod Prelude
pub mod Userprog
pub mod Filesys
pub mod Threads
pub mod Machine
pub mod Network
pub mod Tests
