-- ===== src/Jrnl2/JournalState.antt =====
-- lib/jrnl2/JournalState.hpp and JournalState.cpp: the state machine of a journal.
pub mod Reach
use qpid_cpp_store_debian.Prelude.{Bool, true, false, not, ◌&&◌, ◌||◌, if◌then◌else◌, ℕ, ◌==◌}
use qpid_cpp_store_debian.Prelude.Control.{Result, ok, throw, M, jerr_badjrnlstate}

pub data JournalState : Type 0 where
  js_none js_recovering_phase_1 js_recovering_phase_2 js_initializing : JournalState
  js_running js_stopping js_stopped : JournalState

-- The value of the enumerator.
abbrev pub code : JournalState → ℕ
code js_none = 0
code js_recovering_phase_1 = 1
code js_recovering_phase_2 = 2
code js_initializing = 3
code js_running = 4
code js_stopping = 5
code js_stopped = 6

abbrev pub is : JournalState → JournalState → Bool
is s t = code s == code t

-- The shared shape of the `setState…` functions: a guard that throws, and the new state.
abbrev pub guarded : Bool → JournalState → M JournalState (Unit {0})
guarded refuse to s = if refuse then (throw jerr_badjrnlstate, s) else (ok tt, to)

abbrev pub set : JournalState → JournalState → JournalState
set to s = to

abbrev pub reset : JournalState → JournalState
reset s = js_none

unfoldable pub set_state_initializing : M JournalState (Unit {0})
set_state_initializing s = guarded (not (is s js_none)) js_initializing s

unfoldable pub set_state_recover_phase1 : M JournalState (Unit {0})
set_state_recover_phase1 s = guarded (not (is s js_none)) js_recovering_phase_1 s

unfoldable pub set_state_recover_phase2 : M JournalState (Unit {0})
set_state_recover_phase2 s = guarded (not (is s js_recovering_phase_1)) js_recovering_phase_2 s

-- The guard as written, an "or" of two inequalities.
unfoldable pub set_state_running : M JournalState (Unit {0})
set_state_running s =
    guarded (not (is s js_initializing) || not (is s js_recovering_phase_2)) js_running s

unfoldable pub set_state_stopping : M JournalState (Unit {0})
set_state_stopping s = guarded (not (is s js_running)) js_stopping s

unfoldable pub set_state_stopped : M JournalState (Unit {0})
set_state_stopped s = guarded (not (is s js_stopping)) js_stopped s
