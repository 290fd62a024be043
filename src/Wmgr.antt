-- ===== src/Wmgr.antt =====
-- lib/jrnl/pmgr.hpp, pmgr.cpp, wmgr.hpp and wmgr.cpp: the page cache through which records are
-- written.
pub mod State
pub mod Events
pub mod Flush
pub mod Checks
pub mod Complete
pub mod Ops
pub mod Init
pub mod Frame
pub mod Fits
pub mod Maps
mod Tests
