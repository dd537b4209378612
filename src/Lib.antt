-- ===== src/Lib.antt =====
-- Verification of the C programs of the repository.
--
-- The parts and how they hang together:
--   * CLib is the part of the C library and the file system that the programs use: decimal
--     printing and `atol`, `strtoul` with base 0, `strtol`, C strings, and files as lists of bytes that are
--     read and written at offsets (a write behind the end leaves null bytes in front of it).
--   * Db is the database library refer_code/apue.2e/db/db.c. Db/State.antt has the `DB` structure
--     with its two files and the record locks of its process, and the monad of its functions, in
--     which `err_dump` and `err_quit` are faults. Db/Hash.antt is `_db_hash`; Db/Pointers.antt is
--     `_db_readptr` and `_db_writeptr`; Db/Records.antt is `_db_readidx`, `_db_readdat`,
--     `_db_writedat` and `_db_writeidx`; Db/Search.antt is `_db_find_and_lock` and
--     `_db_findfree`; Db/Ops.antt has `db_open`, `db_fetch`, `db_store`, `db_delete`,
--     `db_rewind` and `db_nextrec`. The abstract view is a list of records (`Row`) for each slot
--     of the hash table (`Chained` in Db/Search/Frame.antt): the pointers of the index file lead
--     through them, and each stands whole in the two files. The view of the whole database is a
--     map from keys to data (`Holds` in Db/Map/State.antt): the lists of all slots and the free
--     list, of records that do not overlap. Db/Map/Session.antt puts calls of the library in a
--     row, behind the `db_open` that makes a new database. A walk of `db_nextrec` sees
--     the index file as the list of its records, deleted ones among them (`Scan` in
--     Db/Ops/Traverse.antt).
--   * Io is the memory access utility io.c. Io/Options.antt reads options and arguments;
--     Io/Plan.antt opens the file and computes the mapping; Io/Access.antt has `memread_memory`
--     and `write_memory`; Io/Main.antt puts them together as `main`.
--   * Dtree is the directory tree monitor refer_code/tlpi-dist/inotify/inotify_dtree.c.
--     Dtree/State.antt has the cache, the root paths and the kernel's answers, which are a
--     parameter; Dtree/Cache.antt the array of watches; Dtree/Paths.antt `rewriteCachedPaths`, the
--     scan of `zapSubtree` and the root paths; Dtree/Events.antt `traverseTree`, `reinitialize`
--     and `processNextInotifyEvent`; Dtree/Session.antt `copyRootDirPaths`,
--     `processInotifyEvents`, `executeCommand` and the loop of `main` as the states it reaches.
--     The read buffer is a list of whole events, of which the code skips one or two or drops all.
--   * Sem is refer_code/apue.2e/lib/semaph.c. Sem/Kernel.antt has the set of three semaphores with
--     the adjustments of SEM_UNDO, `semop` and SETVAL; Sem/Process.antt a process in `sem_create`,
--     `sem_open`, `sem_close`, `sem_op` and `sem_rm` as the system call that comes next;
--     Sem/System.antt the processes that take turns in any order (`run`). Sem/Invariant.antt says
--     what each process is to the set (`Stage`), and what the counter, the lock and the
--     adjustments have to do with it.
--   * Acl is refer_code/tlpi-dist/acl/acl_update.c with `userIdFromName` and `groupIdFromName` of
--     refer_code/tlpi-dist/users_groups/ugid_functions.c. Acl/Spec.antt has `parseEntrySpec` and
--     `parseACL`; Acl/Update.antt `findEntry`, `setPerms` and what `main` does with the entries for
--     one file. What libacl and the file system do is the record `Libacl`, and the names of users
--     and groups are two functions; Acl/Lookup.antt reads an ACL as the permissions of each tag
--     and id. The entries of a specification are at most MAX_ENTRIES, which is the parser's fuel.
--   * GetNum is refer_code/tlpi-dist/lib/get_num.c: `getLong`, `getInt`, `getNum` and `gnFail`, with
--     the bits of get_num.h. Arguments are strings without their null byte; a failure is the text
--     that the process leaves on its error output.
--   * Printd is the print spooler refer_code/apue.2e/ipp/printd.c. Printd/Heap.antt has the nodes
--     of its lists in memory, where a function may follow a dangling pointer or write behind a buffer; Printd/Queue.antt
--     `add_job`, `replace_job` and `remove_job`; Printd/Workers.antt `add_worker`, `kill_workers`
--     and `client_cleanup`; Printd/Jobno.antt `init_request`, `update_jobno` and `get_newjobno`;
--     Printd/Ipp.antt `add_option` and the two headers, within the buffers of `printer_thread`;
--     Printd/Chunks.antt the reads and writes of a loop that copies; Printd/Client.antt `client_thread`;
--     Printd/Start.antt `build_qonstart`;
--     Printd/Status.antt `printer_status` and `readmore`; Printd/Printer.antt a round of
--     `printer_thread` and the signals. The abstract view of a
--     list is the list of its addresses and contents (`Span` in Printd/Heap/Span.antt). What the
--     system calls bring to a thread is an argument of its function.
--
-- Numbers: lengths, offsets and bytes are natural numbers, an unsigned long wraps at `2 ^ w`,
-- where `w` is a parameter of io.c's definitions, and 64 in the hash. A length of io.c is the bit
-- pattern of an int. The numbers that db.c reads with `atol` are integers without a bound, which
-- the field widths keep small: a pointer has six characters and a length four.
--
-- Fuel: the loops over linked records have one round more than the index file has bytes, which is
-- enough for a chain whose records are all apart; the loops of io.c have one round more than the
-- mapping has bytes, and each round but the last accesses one of them; the event loop has two
-- rounds for each event in the buffer and in the reads that follow, and two more. The
-- walks of the spooler along its workers take their fuel as an argument: one round more than
-- there are workers. So do the loops of `printer_status`, of which the search for the end of the
-- header may go on for ever in the code.
--
-- Not modelled: messages and diagnostics other than those of get_num.c, file names and
-- permissions, `malloc` and `free`, the failure of system calls other than those among the answers
-- of the system that the programs take as parameters, the options of acl_update with its -k, the
-- log of the monitor, other processes between two steps of one call but for those that use a
-- semaphore, and signals but for those of the spooler. The other directories of the repository are
-- example programs, scripts and annotated copies of a boot loader.
pub mod Prelude
pub mod Acl
pub mod CLib
pub mod Db
pub mod Dtree
pub mod GetNum
pub mod Io
pub mod Printd
pub mod Sem
