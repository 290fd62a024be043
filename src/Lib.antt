-- ===== src/Lib.antt =====
-- The journal of the qpid message store (lib/jrnl, and the state machines of
-- lib/jrnl2), and the locks of the prepared transactions of the store (lib).
--
-- A journal is a ring of files. An enqueued message is encoded as a record (enq_rec) into pages that
-- AIO writes to the current file; its removal is a second record (deq_rec), and a transaction ends
-- with a third (txn_rec). enq_map knows which records are enqueued and in which file, txn_map which
-- operations belong to open transactions; their counts per file tell when a file may be overwritten.
-- fcntl keeps the counters of one file, lpmgr the files in logical order, and wrfc the file that is
-- written and the rotation to the next. wmgr ties these together: it fills the pages of its cache with
-- records, submits them, and follows each record by its token (data_tok) until its pages are written.
-- On a restart, rcvdat holds what was found on disk, and the store the messages that each prepared
-- transaction locks.
--
-- Which file models what:
--   Prelude      machine integers, vectors, std::map, and code that throws
--   EnqMap       lib/jrnl/enq_map.hpp, enq_map.cpp (class enq_map, all operations)
--   Xid          transaction identifiers, as std::string compares them
--   TxnMap       lib/jrnl/txn_map.hpp, txn_map.cpp (class txn_map, all operations)
--   Records      lib/jrnl/jrec.hpp, jrec.cpp, rec_hdr.hpp, rec_tail.hpp (rec_hdr, rec_tail, jrec)
--   Records.Enq  lib/jrnl/enq_hdr.hpp, enq_rec.cpp (enq_rec::reset, encode, rec_size)
--   Records.Deq  lib/jrnl/deq_hdr.hpp, deq_rec.cpp (deq_rec::reset, encode, rec_size)
--   Records.Txn  lib/jrnl/txn_hdr.hpp, txn_rec.cpp (txn_rec::reset, encode, rec_size)
--   Rcvdat       lib/jrnl/rcvdat.hpp (rcvdat, ffid)
--   Fcntl        lib/jrnl/fcntl.hpp, fcntl.cpp (class fcntl)
--   Lpmgr        lib/jrnl/lpmgr.hpp, lpmgr.cpp (class lpmgr)
--   Wrfc         lib/jrnl/rfc.hpp, rfc.cpp, wrfc.hpp, wrfc.cpp (classes rfc and wrfc)
--   DataTok      lib/jrnl/data_tok.hpp, data_tok.cpp (class data_tok)
--   FileHdr      lib/jrnl/file_hdr.hpp (file_hdr)
--   LpMap        lib/jrnl/lp_map.hpp, lp_map.cpp (class lp_map)
--   Rrfc         lib/jrnl/rrfc.hpp, rrfc.cpp (class rrfc)
--   Wmgr         lib/jrnl/pmgr.hpp, pmgr.cpp, wmgr.hpp, wmgr.cpp (classes pmgr and wmgr): Wmgr.State its
--                members, Events get_events, Flush the pages and files, Checks the checks before a
--                write, Complete what a complete record does to the maps, Ops the operations. Frame and
--                Fits hold the proofs that the page cache stays in step with the file
--   LockedMappings, PreparedTransaction
--                lib/PreparedTransaction.h, PreparedTransaction.cpp (the classes of these names)
--   TimeNs       lib/jrnl/time_ns.hpp (time_ns)
--   Jrnl2        lib/jrnl2/JournalState.cpp, DataTokenState.cpp
--
-- State is a record with the members of the class, and an operation is a function from the state
-- before to its outcome and the state after, which also holds the writes made before an exception.
-- Each class with a mutex holds it over the whole operation, so operations are steps and a history is
-- a list of calls. Numbers are natural numbers with the wrap-around of their types written out; sizes
-- and layouts are those of a 64-bit little-endian host. What C++ leaves undefined (a null pointer, an
-- index out of range of operator[]) is the outcome `undefined`; vector::at throws `out_of_range`.
--
-- Bounds and fuel: clean_loop has one round more than blocks, each round writing one or more;
-- ffid_loop as many rounds as files, which pass every file; threshold_loop one round more than blocks,
-- each round going on by at least one. A record over pages is a recursion on the list of pages.
-- write_loop, the loop of the operations of wmgr, has as many rounds as the record has data blocks, and
-- one: each round writes a block. Fuel that runs out is the error out_of_fuel, which is shown not to
-- occur.
--
-- Arguments, for code that is not of the repository: the file handle of `open`, the answers of
-- the system to clean_file (the record CleanIo), those of libaio
-- and of the clock (the record Aio), and the factory of file controllers that a caller of lpmgr passes.
-- A pointer to a token is its number, a pointer to a page or a file its place, a shared pointer to a
-- LockedMappings its address.
--
-- Not modelled: the read manager rmgr and the reading of records, the facade jcntl, the info file and
-- directories, the broker's plugin, failures of memory allocation, and what only prints or wraps the
-- system.
pub mod Prelude
pub mod EnqMap
pub mod Xid
pub mod TxnMap
pub mod Records
pub mod Rcvdat
pub mod Fcntl
pub mod Lpmgr
pub mod Wrfc
pub mod TimeNs
pub mod Jrnl2
pub mod DataTok
pub mod FileHdr
pub mod Rrfc
pub mod LpMap
pub mod Wmgr
pub mod PreparedTransaction
pub mod LockedMappings
