-- ===== src/Prelude/Control.antt =====
-- Stateful code that may throw. A C++ exception leaves the writes made before the `throw` in place,
-- so the state comes back beside the outcome on every path.
pub mod Triple
use mathlib.Core.Path.{◌≡◌, ap}
use mathlib.Core.Bool.{Bool, true, false}

-- The `jerrno` codes that the modelled code throws, `std::out_of_range` of `vector::at`, a failed
-- `assert`, `undefined` for what C++ leaves undefined (a null or dangling access), and `out_of_fuel`
-- for a loop of the model that runs out of its fuel.
pub data Error : Type 0 where
  jerr_ninit jerr_underflow jerr_aio jerr_rtclock : Error
  jerr_rrfc_openrd jerr_fcntl_openwr jerr_malloc jerr_fcntl_write jerr_fcntl_close : Error
  jerr_fcntl_fileoffsovfl jerr_fcntl_cmploffsovfl jerr_fcntl_rdoffsovfl : Error
  jerr_lfmgr_badaefnumlim jerr_lfmgr_aefnumlimit jerr_lfmgr_aedisabled : Error
  jerr_map_duplicate jerr_map_notfound jerr_map_locked : Error
  jerr_dtok_illegalstate jerr_jrec_badrechdr jerr_jrec_badrectail : Error
  jerr_wmgr_badpgstate jerr_wmgr_baddtokstate jerr_wmgr_enqdiscont : Error
  jerr_wmgr_deqdiscont jerr_wmgr_deqridnotenq : Error
  jerr_baddtokopstate jerr_baddtoktxnstate jerr_baddtokiostate jerr_badjrnlstate : Error
  out_of_range assertion undefined out_of_fuel : Error

pub data Result (A : Type 0) : Type 0 where
  ok : A → Result A
  throw : Error → Result A

abbrev pub M : Type 0 → Type 0 → Type 0
M S A = S → Result A × S

infixl 5 ◌>>=◌ ◌>>◌
abbrev pub ◌>>=◌ : {S A B : Type 0} → M S A → (A → M S B) → M S B
◌>>=◌ m f s = let (r, s') = m s in elim r [ ok a ↦ f a s' | throw e ↦ (throw e, s') ]

abbrev pub ◌>>◌ : {S B : Type 0} → M S (Unit {0}) → M S B → M S B
◌>>◌ m k s = let (r, s') = m s in elim r [ ok a ↦ k s' | throw e ↦ (throw e, s') ]

abbrev pub pure : {S A : Type 0} → A → M S A
pure a s = (ok a, s)

abbrev pub raise : {S A : Type 0} → Error → M S A
raise e s = (throw e, s)

abbrev pub get : {S : Type 0} → M S S
get s = (ok s, s)

abbrev pub put : {S : Type 0} → S → M S (Unit {0})
put s' s = (ok tt, s')

-- `assert(b)` and a guard that throws.
abbrev pub require : {S : Type 0} → Bool → Error → M S (Unit {0})
require true e s = (ok tt, s)
require false e s = (throw e, s)

-- A call that returns, and what follows it.
pub bind-ok :
    {S A B : Type 0} (m : M S A) (k : A → M S B) (a : A) (s t : S)
    → m s ≡ (ok a, t)
    → (m >>= k) s ≡ k a t
bind-ok {S} {A} {B} m k a s t h =
    ap
      (λ (o : Result A × S). elim o.0 as (λ _. Result B × S) [
        | ok x ↦ k x o.1
        | throw e ↦ (throw e, o.1)
      ])
      h
