-- ===== src/Fcntl/Clean.antt =====
-- clean_file of lib/jrnl/fcntl.cpp: a file is filled with zeros.
use qpid_cpp_store_debian.Prelude.{
  ℕ, zero, suc, ◌+◌, ◌-◌, ◌^◌, ◌≤◌, ◌<◌, ◌≡◌, ◌↔◌, refl, true, false, ◌⊎◌, List, [], ◌∷◌, not, ◌&&◌,
  Bool, ltb, leb, ℤ, Bool-cases, inl, inr, if◌then◌else◌, add32, arith, ℕ_discrete, subst, ◌∙◌, sym,
}
use qpid_cpp_store_debian.Prelude.Control.{Result, ok, throw, jerr_fcntl_write}
use qpid_cpp_store_debian.Fcntl.{
  clean_file, clean_loop, clean_close, CleanIo, is_minus_one, is_negative, is_nonzero,
}

abbrev pub sum : List ℕ → ℕ
sum [] = 0
sum (n ∷ ns) = n + sum ns

abbrev pub AllWithin : ℕ → List ℕ → Type 0
AllWithin m [] = Unit
AllWithin m (n ∷ ns) = (n ≤ m) × AllWithin m ns

-- None of the writes, the first of which is the `i`th, returned -1.
abbrev pub none_failed : (ℕ → ℕ → ℤ) → ℕ → List ℕ → Bool
none_failed write i [] = true
none_failed write i (n ∷ ns) = not (is_minus_one (write i n)) && none_failed write (i + 1) ns

-- The loop returns exactly if no write failed, and then the sizes make up all that was to be written;
-- otherwise it throws the error of a write.
record IsCleaned (write : ℕ → ℕ → ℤ) (m nsblks i : ℕ) (o : Result (Unit {0}) × List ℕ)
    : Type 0 where
  within : AllWithin m o.1
  outcome :
      ((o.0 ≡ ok tt) × (none_failed write i o.1 ≡ true) × (sum o.1 ≡ nsblks))
      ⊎ ((o.0 ≡ throw jerr_fcntl_write) × (none_failed write i o.1 ≡ false))

-- The size of one write.
abbrev this_write : ℕ → ℕ → ℕ
this_write m nsblks = if leb m nsblks then m else nsblks

cons-IsCleaned :
    (write : ℕ → ℕ → ℤ) (m n nsblks i : ℕ) (o : Result (Unit {0}) × List ℕ)
    → n ≤ m
    → n ≤ nsblks
    → is_minus_one (write i n) ≡ false
    → IsCleaned write m (nsblks - n) (i + 1) o
    → IsCleaned write m nsblks i (o.0, n ∷ o.1)
cons-IsCleaned write m n nsblks i o h k e c = record {
  within = (h, c.within);
  outcome = elim c.outcome [
    | inl (r, s, t) ↦ inl (r, ground (arith, e, s), omega (arith, t, k))
    | inr (r, s) ↦ inr (r, ground (arith, e, s))
  ];
}

clean_loop-zero :
    (write : ℕ → ℕ → ℤ) (fuel m i : ℕ) → clean_loop write (suc fuel) m 0 i ≡ (ok tt, [])
unfolding clean_loop
clean_loop-zero write fuel m i = refl

clean_loop-failed :
    (write : ℕ → ℕ → ℤ) (fuel m nsblks i : ℕ)
    → 0 < nsblks
    → is_minus_one (write i (this_write m nsblks)) ≡ true
    → clean_loop write (suc fuel) m nsblks i ≡ (throw jerr_fcntl_write, this_write m nsblks ∷ [])
unfolding clean_loop
clean_loop-failed write fuel m nsblks i h f = rw f (ground (arith, h))

clean_loop-went :
    (write : ℕ → ℕ → ℤ) (fuel m nsblks i : ℕ)
    → 0 < nsblks
    → is_minus_one (write i (this_write m nsblks)) ≡ false
    → let rest = clean_loop write fuel m (nsblks - this_write m nsblks) (i + 1) in
      clean_loop write (suc fuel) m nsblks i ≡ (rest.0, this_write m nsblks ∷ rest.1)
unfolding clean_loop
clean_loop-went write fuel m nsblks i h f = rw f (ground (arith, h))

clean_loop-IsCleaned :
    (write : ℕ → ℕ → ℤ) (fuel m nsblks i : ℕ)
    → 0 < m
    → nsblks < fuel
    → IsCleaned write m nsblks i (clean_loop write fuel m nsblks i)
unfolding clean_loop
clean_loop-IsCleaned write zero m nsblks i h k = absurd (omega arith)
clean_loop-IsCleaned write (suc fuel) m nsblks i h k = elim (ℕ_discrete nsblks 0) [
  | yes e ↦ rw e (
      subst (IsCleaned write m 0 i) (sym (clean_loop-zero write fuel m i))
        (record { within = tt; outcome = inl (refl, refl, refl) }))
  | no e ↦ elim (Bool-cases (is_minus_one (write i (this_write m nsblks)))) [
    | inl f ↦
        subst (IsCleaned write m nsblks i)
          (sym (clean_loop-failed write fuel m nsblks i (omega (arith, e)) f))
          (record { within = (ground arith, tt); outcome = inr (refl, ground (arith, f)) })
    | inr f ↦
        subst (IsCleaned write m nsblks i)
          (sym (clean_loop-went write fuel m nsblks i (omega (arith, e)) f))
          (cons-IsCleaned write m (this_write m nsblks) nsblks i
            (clean_loop write fuel m (nsblks - this_write m nsblks) (i + 1)) (ground arith)
            (ground arith) f
            (clean_loop-IsCleaned write fuel m (nsblks - this_write m nsblks) (i + 1) h
              (ground (arith, h, k, e))))
  ]
]

-- Whether each call of the system succeeds: the buffer, the file, the writes asked for, and `close`.
abbrev pub all_succeed : CleanIo → List ℕ → Bool
all_succeed io sizes =
    io.memalign
    && (not (is_negative io.fh) && (none_failed io.write 0 sizes && not (is_nonzero io.close)))

AllWithin-mono : (m n : ℕ) (ns : List ℕ) → m ≤ n → AllWithin m ns → AllWithin n ns
AllWithin-mono m n [] h w = tt
AllWithin-mono m n (k ∷ ns) h w = (omega (arith, w.0), AllWithin-mono m n ns h w.1)

abbrev buffer : ℕ → ℕ
buffer nsblks = if ltb 4096 nsblks then 4096 else nsblks

cleaned :
    (io : CleanIo) (n : ℕ) (o : Result (Unit {0}) × List ℕ)
    → IsCleaned io.write (buffer n) n 0 o
    → let r = clean_close io.close o.0 in
      ((r ≡ ok tt) ↔ ((none_failed io.write 0 o.1 && not (is_nonzero io.close)) ≡ true))
      × (r ≡ ok tt → sum o.1 ≡ n)
cleaned io n o c = elim c.outcome [
  | inl (e, f, g) ↦ rw (e, f) (ground (arith, g))
  | inr (e, f) ↦ rw (e, f) (ground arith)
]

-- `clean_file` returns exactly if each call of the system that it makes succeeds: a buffer, a handle
-- for the file, each write and close, a write being taken for whole if it does not return -1. It has
-- then asked for writes of the whole file, one sblk more than its size. No write is of more than 4096
-- sblks. The size does not wrap around.
pub clean_file-sum :
    (io : CleanIo) (jfsize_sblks : ℕ)
    → jfsize_sblks + 1 < 2 ^ 32
    → let (r, sizes) = clean_file io jfsize_sblks in
      ((r ≡ ok tt) ↔ (all_succeed io sizes ≡ true))
      × (r ≡ ok tt → sum sizes ≡ jfsize_sblks + 1)
      × AllWithin 4096 sizes
unfolding clean_file
clean_file-sum io jfsize_sblks h =
    let n = add32 jfsize_sblks 1 in
    let e : n ≡ jfsize_sblks + 1 = omega arith in
    let o = clean_loop io.write (n + 1) (buffer n) n 0 in
    let c = clean_loop-IsCleaned io.write (n + 1) (buffer n) n 0 (ground arith) (omega arith) in
    let made = cleaned io n o c in
    let few = AllWithin-mono (buffer n) 4096 o.1 (ground arith) c.within in
    elim (Bool-cases io.memalign) [
      | inr f ↦ rw f (ground arith)
      | inl f ↦ elim (Bool-cases (is_negative io.fh)) [
        | inl g ↦ rw (f, g) (ground arith)
        | inr g ↦ rw (f, g) (made.0, (λ r. made.1 r ∙ e), few)
      ]
    ]
