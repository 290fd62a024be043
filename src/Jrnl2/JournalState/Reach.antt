-- ===== src/Jrnl2/JournalState/Reach.antt =====
-- The states that the calls of lib/jrnl2/JournalState.cpp reach.
use qpid_cpp_store_debian.Prelude.{
  ◌≡◌, ◌⊎◌, ◌↔◌, inl, inr, refl, ap, subst, Bool, true, false, List, [], ◌∷◌, arith,
}
use qpid_cpp_store_debian.Prelude.Control.{Result, ok, throw, jerr_badjrnlstate}
use qpid_cpp_store_debian.Jrnl2.JournalState.{
  JournalState, js_none, js_recovering_phase_1, js_recovering_phase_2, js_initializing, js_running,
  js_stopping, js_stopped, set, reset, set_state_initializing, set_state_recover_phase1,
  set_state_recover_phase2, set_state_running, set_state_stopping, set_state_stopped,
}

-- The functions that change the state, `sets` for the raw `set`.
pub data Call : Type 0 where
  sets : JournalState → Call
  resets to_initializing to_recover_phase1 to_recover_phase2 to_running to_stopping to_stopped :
      Call

abbrev pub outcome : Call → JournalState → Result (Unit {0}) × JournalState
outcome (sets t) s = (ok tt, set t s)
outcome resets s = (ok tt, reset s)
outcome to_initializing s = set_state_initializing s
outcome to_recover_phase1 s = set_state_recover_phase1 s
outcome to_recover_phase2 s = set_state_recover_phase2 s
outcome to_running s = set_state_running s
outcome to_stopping s = set_state_stopping s
outcome to_stopped s = set_state_stopped s

-- Which call leads from which state to which: the edges of the diagram in JournalState.hpp, but for
-- those into JS_RUNNING that it has from JS_INITIALIZING and JS_RECOVERING_PHASE_2, and the two
-- functions without a guard.
pub data Edge : JournalState → Call → JournalState → Type 0 where
  setting : (s t : JournalState) → Edge s (sets t) t
  resetting : (s : JournalState) → Edge s resets js_none
  initializing : Edge js_none to_initializing js_initializing
  recovering1 : Edge js_none to_recover_phase1 js_recovering_phase_1
  recovering2 : Edge js_recovering_phase_1 to_recover_phase2 js_recovering_phase_2
  stopping : Edge js_running to_stopping js_stopping
  stopped : Edge js_stopping to_stopped js_stopped

running_throws : (s : JournalState) → set_state_running s ≡ (throw jerr_badjrnlstate, s)
unfolding set_state_running
running_throws s = ground arith

outcome-cases :
    (c : Call) (s : JournalState)
    → (((outcome c s).0 ≡ ok tt) × Edge s c (outcome c s).1)
      ⊎ (outcome c s ≡ (throw jerr_badjrnlstate, s))
unfolding set_state_initializing set_state_recover_phase1 set_state_recover_phase2 set_state_running
    set_state_stopping set_state_stopped
outcome-cases (sets t) s = inl (refl, setting s t)
outcome-cases resets s = inl (refl, resetting s)
outcome-cases to_initializing js_none = inl (refl, initializing)
outcome-cases to_recover_phase1 js_none = inl (refl, recovering1)
outcome-cases to_recover_phase2 js_recovering_phase_1 = inl (refl, recovering2)
outcome-cases to_stopping js_running = inl (refl, stopping)
outcome-cases to_stopped js_stopping = inl (refl, stopped)
outcome-cases to_running s = inr (running_throws s)
outcome-cases c s = inr refl

Edge-returns : (c : Call) (s t : JournalState) → Edge s c t → outcome c s ≡ (ok tt, t)
unfolding set_state_initializing set_state_recover_phase1 set_state_recover_phase2
    set_state_stopping set_state_stopped
Edge-returns c s t (setting s' t') = refl
Edge-returns c s t (resetting s') = refl
Edge-returns c s t initializing = refl
Edge-returns c s t recovering1 = refl
Edge-returns c s t recovering2 = refl
Edge-returns c s t stopping = refl
Edge-returns c s t stopped = refl

returns-Edge : (c : Call) (s t : JournalState) → outcome c s ≡ (ok tt, t) → Edge s c t
returns-Edge c s t h = elim (outcome-cases c s) [
  | inl (e, g) ↦ subst (Edge s c) (ap (λ o. o.1) h) g
  | inr e ↦ cc
]

-- A call returns, in the state `t`, exactly if there is an edge from the state to `t` for it;
-- otherwise it throws the state error and leaves the state as it is. The edges are those of the
-- diagram in JournalState.hpp but for its two into JS_RUNNING, and those of `reset` and of the raw
-- `set`, which have no guard.
pub outcome-edges :
    (c : Call) (s : JournalState)
    → ((t : JournalState) → (outcome c s ≡ (ok tt, t)) ↔ Edge s c t)
      × (((outcome c s).0 ≡ ok tt) ⊎ (outcome c s ≡ (throw jerr_badjrnlstate, s)))
outcome-edges c s = (
  (λ t. (returns-Edge c s t, Edge-returns c s t)),
  elim (outcome-cases c s) [ inl (e, g) ↦ inl e | inr e ↦ inr e ],
)

-- The states from JS_RUNNING on.
abbrev pub has_run : JournalState → Bool
has_run js_none = false
has_run js_recovering_phase_1 = false
has_run js_recovering_phase_2 = false
has_run js_initializing = false
has_run js_running = true
has_run js_stopping = true
has_run js_stopped = true

-- A raw `set` to one of these states.
abbrev pub sets_run : Call → Bool
sets_run (sets t) = has_run t
sets_run c = false

step-has_run :
    (c : Call) (s : JournalState)
    → sets_run c ≡ false
    → has_run s ≡ false
    → has_run (outcome c s).1 ≡ false
unfolding set_state_initializing set_state_recover_phase1 set_state_recover_phase2 set_state_running
    set_state_stopping set_state_stopped
step-has_run (sets t) s n h = n
step-has_run resets s n h = refl
step-has_run to_initializing s n h = ground arith
step-has_run to_recover_phase1 s n h = ground arith
step-has_run to_recover_phase2 s n h = ground arith
step-has_run to_running s n h = ground arith
step-has_run to_stopping s n h = ground arith
step-has_run to_stopped s n h = ground arith

unfoldable pub run : List Call → JournalState → JournalState
run [] s = s
run (c ∷ cs) s = run cs (outcome c s).1

abbrev pub NoneSetsRun : List Call → Type 0
NoneSetsRun [] = Unit
NoneSetsRun (c ∷ cs) = (sets_run c ≡ false) × NoneSetsRun cs

run-has_run :
    (cs : List Call) (s : JournalState)
    → NoneSetsRun cs
    → has_run s ≡ false
    → has_run (run cs s) ≡ false
unfolding run
run-has_run [] s n h = h
run-has_run (c ∷ cs) s n h = run-has_run cs (outcome c s).1 n.1 (step-has_run c s n.0 h)

-- `setStateRunning` throws in every state, and no calls ever take a new journal to JS_RUNNING,
-- JS_STOPPING or JS_STOPPED, if none of them is the raw `set` to one of these three.
pub run-never_runs :
    (cs : List Call)
    → NoneSetsRun cs
    → ((s : JournalState) → set_state_running s ≡ (throw jerr_badjrnlstate, s))
      × (has_run (run cs js_none) ≡ false)
run-never_runs cs n = (running_throws, run-has_run cs js_none n refl)
