-- ===== src/Lpmgr/Init.antt =====
-- How lib/jrnl/lpmgr.cpp fills the list of a new journal.
use qpid_cpp_store_debian.Prelude.{
  ℕ, zero, suc, ◌+◌, ◌^◌, ◌≡◌, ◌≤◌, ◌<◌, refl, Bool, true, false, Option, none, some, List, [], ◌∷◌,
  ◌++◌, length, arith, ◌==◌, if◌then◌else◌, u16, subst, ◌⊎◌, sym, length-append,
}
use qpid_cpp_store_debian.Prelude.Control.{
  ok, throw, jerr_lfmgr_badaefnumlim, jerr_lfmgr_aefnumlimit,
}
use qpid_cpp_store_debian.Fcntl.{Fcntl}
use qpid_cpp_store_debian.Lpmgr.{Lpmgr, Factory, append_loop, append, initialize}
use qpid_cpp_store_debian.Lpmgr.Order.{Numbered, count, IsValid, Makes}

Numbered-snoc :
    (i : ℕ) (xs : List (Option Fcntl)) (f : Fcntl)
    → Numbered i xs
    → f.lfid ≡ i + length xs
    → Numbered i (xs ++ (some f ∷ []))
Numbered-snoc i [] f n e = (omega (arith, e), tt)
Numbered-snoc i (none ∷ xs) f n e = elim n [ ]
Numbered-snoc i (some g ∷ xs) f n e = (n.0, Numbered-snoc (suc i) xs f n.1 (omega (arith, e)))

count-snoc :
    (p : ℕ) (xs : List (Option Fcntl)) (f : Fcntl)
    → count p (xs ++ (some f ∷ [])) ≡ (if f.pfid == p then 1 else 0) + count p xs
count-snoc p [] f = refl
count-snoc p (none ∷ xs) f = count-snoc p xs f
count-snoc p (some g ∷ xs) f = omega (arith, count-snoc p xs f)

append_loop_ok :
    (fp : Factory) (n i : ℕ) (l : Lpmgr) (f : Fcntl)
    → fp (u16 i) (u16 i) none ≡ ok f
    → append_loop fp (suc n) i l
      ≡ append_loop fp n (suc i) (record l { fcntl_arr = l.fcntl_arr ++ (some f ∷ []) })
unfolding append_loop
append_loop_ok fp n i l f q = ground (arith, q)

append_loop-IsValid :
    (fp : Factory) (n i : ℕ) (l : Lpmgr)
    → Makes fp
    → i + n < 2 ^ 16
    → length l.fcntl_arr ≡ i
    → IsValid l
    → let (r, l') = append_loop fp n i l in (r ≡ ok tt) × IsValid l' × (length l'.fcntl_arr ≡ i + n)
unfolding append_loop
append_loop-IsValid fp zero i l m b e v = (refl, v, omega (arith, e))
append_loop-IsValid fp (suc n) i l m b e v =
    let (f, q, en, ep) = m (u16 i) (u16 i) in
    let l' : Lpmgr = record l { fcntl_arr = l.fcntl_arr ++ (some f ∷ []) } in
    let more = length-append l.fcntl_arr (some f ∷ []) in
    let (r, w, len) =
      append_loop-IsValid fp n (suc i) l' m (omega (arith, b)) (omega (arith, more, e)) (record {
        numbered = Numbered-snoc 0 l.fcntl_arr f v.numbered (omega (arith, en, e, b));
        unique = λ p. ground (arith, count-snoc p l.fcntl_arr f, v.unique p, ep, e, b, more);
      }) in
    subst (λ z. (z.0 ≡ ok tt) × IsValid z.1 × (length z.1.fcntl_arr ≡ i + suc n))
      (sym (append_loop_ok fp n i l f q)) (r, w, omega (arith, len))

-- `initialize` of a journal of at most 65535 files, by a factory that makes files with the numbers
-- asked for. Auto-expansion with a limit that is not above the number of files is refused; without
-- auto-expansion, a limit below the number of files is; either way the list is empty. Otherwise the
-- call returns, with each file at its logical number, each physical number below the number of
-- files once, and the number of files asked for.
pub initialize-IsValid :
    (n : ℕ) (ae : Bool) (limit : ℕ) (fp : Factory) (l : Lpmgr)
    → Makes fp
    → n < 2 ^ 16
    → let (r, l') = initialize n ae limit fp l in
      (ae ≡ true
        → 0 < limit
        → limit ≤ n
        → (r ≡ throw jerr_lfmgr_badaefnumlim) × (l'.fcntl_arr ≡ []))
      × (ae ≡ false
          → 0 < limit
          → limit < n
          → (r ≡ throw jerr_lfmgr_aefnumlimit) × (l'.fcntl_arr ≡ []))
      × ((limit ≡ 0) ⊎ (n < limit) ⊎ ((n ≡ limit) × (ae ≡ false))
          → (r ≡ ok tt) × IsValid l' × (length l'.fcntl_arr ≡ n))
unfolding initialize append
initialize-IsValid n ae limit fp l m b =
    let start : Lpmgr = record { ae = ae; ae_max_jfiles = limit; fcntl_arr = [] } in
    let made =
      append_loop-IsValid fp n 0 start m (omega (arith, b)) refl
        (record { numbered = tt; unique = λ p. ground arith }) in
    (λ a h k. ground arith, λ a h k. ground arith, λ h. ground (arith, made, h))
