-- ===== src/Lpmgr/Invert.antt =====
-- The logical numbers that `lpmgr::recover` (lib/jrnl/lpmgr.cpp) computes from its list of files.
use qpid_cpp_store_debian.Prelude.{
  ℕ, zero, suc, ◌+◌, ◌^◌, ◌≡◌, ◌≢◌, ◌<◌, refl, some, List, [], ◌∷◌, length, get_or, set, length-set,
  arith, ◌==◌, if◌then◌else◌, u16, ◌∙◌,
}
use qpid_cpp_store_debian.Lpmgr.{invert_loop}

get_or-set :
    (xs : List ℕ) (i j v : ℕ)
    → i < length xs
    → get_or (set xs i v) j 0 ≡ (if i == j then v else get_or xs j 0)
get_or-set [] i j v h = absurd (omega (arith, h))
get_or-set (x ∷ xs) zero zero v h = refl
get_or-set (x ∷ xs) zero (suc j) v h = ground arith
get_or-set (x ∷ xs) (suc i) zero v h = ground arith
get_or-set (x ∷ xs) (suc i) (suc j) v h = ground (arith, get_or-set xs i j v)

-- What `invert_loop` leaves of the list it starts from, and where it writes the places.
pub record Inverts (fids : List ℕ) (lid : ℕ) (acc out : List ℕ) : Type 0 where
  pub size : length out ≡ length acc
  pub kept :
      (j : ℕ) → ((i : ℕ) → i < length fids → get_or fids i 0 ≢ j) → get_or out j 0 ≡ get_or acc j 0
  pub put :
      (i : ℕ)
      → i < length fids
      → ((j : ℕ) → j < length fids → get_or fids j 0 ≡ get_or fids i 0 → j ≡ i)
      → get_or out (get_or fids i 0) 0 ≡ lid + i

put_cons :
    (fid : ℕ) (fids : List ℕ) (lid : ℕ) (acc out : List ℕ) (i : ℕ)
    → fid < length acc
    → lid < 2 ^ 16
    → Inverts fids (suc lid) (set acc fid (u16 lid)) out
    → i < suc (length fids)
    → ((j : ℕ) → j < suc (length fids) → get_or (fid ∷ fids) j 0 ≡ get_or (fid ∷ fids) i 0 → j ≡ i)
    → get_or out (get_or (fid ∷ fids) i 0) 0 ≡ lid + i
put_cons fid fids lid acc out zero h b v l d =
    v.kept fid (λ i k q. absurd (omega (arith, d (suc i) (omega (arith, k)) q)))
    ∙ ground (arith, get_or-set acc fid fid (u16 lid) h, b)
put_cons fid fids lid acc out (suc i) h b v l d =
    v.put i (omega (arith, l)) (λ j k q. omega (arith, d (suc j) (omega (arith, k)) q))
    ∙ omega arith

pub invert_loop-Inverts :
    (fids : List ℕ) (lid : ℕ) (acc : List ℕ)
    → ((i : ℕ) → i < length fids → get_or fids i 0 < length acc)
    → lid + length fids < 2 ^ 16
    → (out : List ℕ) × (invert_loop fids lid acc ≡ some out) × Inverts fids lid acc out
unfolding invert_loop
invert_loop-Inverts [] lid acc b h = (
  acc,
  refl,
  record { size = refl; kept = λ j n. refl; put = λ i l d. absurd (omega (arith, l)) },
)
invert_loop-Inverts (fid ∷ fids) lid acc b h =
    let first = b 0 (omega arith) in
    let acc' = set acc fid (u16 lid) in
    let len = length-set acc fid (u16 lid) in
    let (out, e, v) =
      invert_loop-Inverts fids (suc lid) acc'
        (λ i l. omega (arith, b (suc i) (omega (arith, l)), len)) (omega (arith, h)) in
    (
      out,
      ground (arith, e, first),
      record {
        size = v.size ∙ len;
        kept = λ j n.
            v.kept j (λ i l. n (suc i) (omega (arith, l)))
            ∙ ground (arith, get_or-set acc fid j (u16 lid) first, n 0 (omega arith));
        put = λ i l d. put_cons fid fids lid acc out i first (omega (arith, h)) v l d;
      },
    )
