-- ===== src/Jrnl2/Tests.antt =====
-- The theorems on the state machines of lib/jrnl2 at concrete calls.
use qpid_cpp_store_debian.Prelude.{◌≡◌, ◌⊎◌, ◌↔◌, refl, true, false, List, [], ◌∷◌}
use qpid_cpp_store_debian.Prelude.Control.{ok, throw, jerr_badjrnlstate, jerr_baddtokopstate}
use qpid_cpp_store_debian.Jrnl2.JournalState.{
  JournalState, js_none, js_initializing, set_state_running, set_state_initializing,
}
use qpid_cpp_store_debian.Jrnl2.JournalState.Reach as Journal
use qpid_cpp_store_debian.Jrnl2.DataTokenState.{
  DataTokenState, initial, is_dequeueable, op_enqueue, set_op_state_to_dequeue,
}
use qpid_cpp_store_debian.Jrnl2.DataTokenState.Reach as Token

abbrev start : List Journal.Call
start = Journal.to_initializing ∷ Journal.to_running ∷ []

-- Initialized as the diagram says, the journal does not run.
start-run : Journal.run start js_none ≡ js_initializing
unfolding Journal.run set_state_running set_state_initializing
start-run = refl

run-never_runs_example :
    ((s : JournalState) → set_state_running s ≡ (throw jerr_badjrnlstate, s))
    × (Journal.has_run (Journal.run start js_none) ≡ false)
run-never_runs_example = Journal.run-never_runs start (refl, (refl, tt))

outcome-edges_example :
    ((t : JournalState)
      → (Journal.outcome Journal.to_initializing js_none ≡ (ok tt, t))
        ↔ Journal.Edge js_none Journal.to_initializing t)
    × (((Journal.outcome Journal.to_initializing js_none).0 ≡ ok tt)
        ⊎ (Journal.outcome Journal.to_initializing js_none ≡ (throw jerr_badjrnlstate, js_none)))
outcome-edges_example = Journal.outcome-edges Journal.to_initializing js_none

abbrev enqueued : DataTokenState
enqueued = record initial { op_state = op_enqueue }

abbrev more : List Token.Call
more = Token.to_commit ∷ Token.buffer_part ∷ Token.buffer_part ∷ []

run-Advances_example : Token.Advances enqueued (Token.run more enqueued)
run-Advances_example = Token.run-Advances more enqueued (refl, (refl, (refl, tt)))

dequeue_once_example :
    (is_dequeueable enqueued ≡ true)
    × (set_op_state_to_dequeue (Token.run more (set_op_state_to_dequeue enqueued).1)
        ≡ (throw jerr_baddtokopstate, Token.run more (set_op_state_to_dequeue enqueued).1))
unfolding set_op_state_to_dequeue
dequeue_once_example = Token.dequeue_once more enqueued (refl, (refl, (refl, tt))) refl
