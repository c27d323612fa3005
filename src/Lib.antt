-- ===== src/Lib.antt =====
-- The laboratory programs of an operating systems course, in C.
--
-- Parts and files:
--
-- Common and Common/: numbers, Boolean tests, lists, signed integers and families of values indexed by
--   numbers (threads, addresses), with the lemmas that the parts share.
--
-- Pht: the hash tables of pht/src.
--   Pht/Hash is bernstein_hash of hash-table-common.c, on strings as lists of bytes.
--   Pht/Chain is a linked list of entries and get_list_entry of hash-table-base.c.
--   Pht/Base is the table without locks, hash-table-base.c: hash_table_base_create, _contains,
--     _add_entry, _get_value and _destroy; Pht/Base/Lookup and Pht/Base/Entries have its theorems.
--   Pht/Locked is hash_table_v1_add_entry of hash-table-v1.c and hash_table_v2_add_entry of
--     hash-table-v2.c, as a step relation of any number of threads, with the placement of the mutexes as a
--     parameter: a call reads the head of its list, locks, searches, writes, and unlocks. One step is one
--     access to shared memory. Pht/Locked/Invariant is what every reachable state satisfies.
--   Pht/V1 has one mutex for the table and Pht/V2 one for each bucket; both instantiate Pht/Locked.
--   A read of the table by contains or get_value takes no lock, so the theorems on them speak of
--   moments between steps.
--
--   Pht/Tester is pht-tester.c: parse_uint32_t and parse_opt, the strings that main makes from rand, and
--     its runs of the three tables, each with the count of the strings that the table misses.
--     Pht/Tester/Threads has run_v1 and run_v2, as steps of threads on top of those of Pht/Locked, and
--     Pht/Tester/Loops the lemmas on its loops. The memory that main makes the strings in has the size
--     that calloc was given, and a write outside of it leaves no result.
--
-- Wut: the user-level threads of wut/src/wut.c.
--   Wut/State has the globals, the TCBs and the contexts. A pointer is the number of its allocation.
--   Wut/Memory has the accesses: TCB_ARRAY with its bounds, fields of a TCB, the TAILQ macros, and
--     what a continued context runs. A bad access is the outcome `fault`.
--   Wut/Create is wut_init, resize and wut_create; Wut/Schedule is wut_id, wut_yield, wut_join and
--     wut_exit; Wut/Cancel is wut_cancel.
--   Wut/Program is a run of any calls by whichever thread runs. Wut/Keeps lifts an invariant from
--     the writes of the code to its operations. Wut/Schedule/Order says when the threads can take turns,
--     Wut/Schedule/Join is about a join and the exit that ends it, Wut/Schedule/Ready about new threads,
--     Wut/Schedule/Clear about clear_global, which the last exit calls, with its loop in
--     Wut/Schedule/Slots. A thread exits on a stack of
--     its own, on that of the process, or on that of EXIT_CONTEXT when its function returns; to unmap
--     the stack that the code runs on is a fault.
--   Wut/Tests has traces of programs, those that end in a fault or in a lost thread among them.
--
-- Vms: the virtual memory of vms/src.
--   Vms/Word has the operators of C on uint64_t that the code uses.
--   Vms/Pte is pte.c. Vms/Pte/Digits reads its masks as binary digits, Vms/Pte/Flags has its theorems.
--   Vms/Machine has the memory, a byte at each address, and the static variables of pages.c, mmu.c and
--     vms.c. An access outside of the mapping is the outcome `fault`, a failed assert `aborted`.
--   Vms/Pages is pages.c; Vms/Pages/Valid and Vms/Pages/Free say what its operations keep.
--   Vms/PageTable is page_table.c, with theorems on its fields in Vms/PageTable/Fields.
--   Vms/Fault is page_fault_handler of vms.c, which the walk of the MMU calls. Vms/Fault/Own and
--     Vms/Fault/Cow follow it at an entry that is marked as shared, Vms/Fault/Handler puts this together.
--   Vms/Mmu is mmu.c: the walk, vms_read and vms_write. Vms/Mmu/Ends is about its loop, Vms/Mmu/Walk
--     about addresses that the tables map, Vms/Mmu/Shared about a write to a page that is shared.
--   Vms/Copy is copy of vms.c with its two modes. Vms/Copy/Shares and Vms/Copy/Entry follow it at one
--     entry in the mode that shares pages, Vms/Copy/Loop over a table of level 0, as Vms/Copy/Table has it.
--   Vms/Demonstration is main of main.c.
--   What sysconf and mmap give is a parameter of vms_init.
--
-- Ssp: the supervisor of child processes of ssp/src/ssp.c. Ssp has ssp_init, ssp_create, ssp_get_status
--   and ssp_wait, with the answers of fork and waitpid as arguments and the macros of sys/wait.h as
--   arithmetic. Ssp/Signals has ssp_send_signal, Ssp/Unknown record_unknown_processes and ssp_print,
--   which gives the lines as values, and Ssp/Program sequences of calls. Ssp/Status is about the
--   statuses that are stored, Ssp/Calls about sequences of calls, Ssp/Unknown/Recorded about the children
--   that are recorded.
--
-- Tps: the process list of tps/src/main.c: get_process_info and print_process_info, with opendir, readdir
--   and fopen as arguments and the output as bytes. Tps/Lines is about the search for the name in a
--   status file, Tps/Listing about the whole output.
--
-- Ext2: the writer of an ext2 image, hello-ext2/src/ext2-create.c.
--   Ext2/System has the file, a function from offsets to bytes with its size and offset, and the calls of
--     the operating system with what a failure makes of them. What it answers is an Environment:
--     which call fails with which errno, the time, and the memory behind the last entry of the root.
--   The struct of the superblock has 1052 bytes, more than a block, as the source declares it.
--   Ext2/Layout has the constants; Ext2/Superblock, Ext2/Bitmaps, Ext2/Inodes and Ext2/Directories the
--     structs as lists of bytes and the functions that write them; Ext2/Create has main.
--   Ext2/Reader is a reader of such images that shares no constant with the writer.
--   Ext2/Writes and Ext2/Create/Writes say which bytes the writes leave, Ext2/Bitmaps/Bits which bits the
--     loops set, Ext2/System/Checked which code exits at its first failing call.
--
-- Bounds and fuel: a 32-bit hash is computed modulo 2 ^ 32. The loop that looks for a thread id runs
-- over MAX_THREAD_NUM slots, which is its number of rounds. The loop of mmu gets six rounds, since it
-- tries each of three levels twice at most. A page number has 44 bits, an entry 64. Counters of threads,
-- of sizes and of references to a page are unbounded numbers. The reader of a directory gets a round for
-- each 8 bytes, the least size of a record, and the loop over a status file one for each byte.
--
-- Not modelled: failing allocation, mmap and pthread calls; freed memory, but for entries of the ready
-- queue, stacks and contexts, whose bad uses are faults; the child side of fork in ssp; the text of a
-- fatal page fault; of the tester, the clock, argp_parse and failing pthread calls; the programs
-- hello-kernel and debugging-practice, which have no operations; tests and graders.
pub mod Common
pub mod Pht
pub mod Wut
pub mod Vms
pub mod Ssp
pub mod Tps
pub mod Ext2
