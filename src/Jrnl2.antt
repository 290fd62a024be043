-- ===== src/Jrnl2.antt =====
-- lib/jrnl2: the two state machines of the second version of the journal.
pub mod JournalState
pub mod DataTokenState
mod Tests
