-- ===== src/Lpmgr/Grow.antt =====
-- What the operations of lib/jrnl/lpmgr.cpp do to the journal's list of files.
use qpid_cpp_store_debian.Prelude.{
  ℕ, zero, suc, ◌+◌, ◌^◌, ◌≡◌, ◌≤◌, ◌<◌, refl, true, ◌&&◌, Option, none, some, List, length, arith,
  ltb, leb, if◌then◌else◌, u16, subst, ℕ_discrete, ap, sym, ◌∙◌,
}
use qpid_cpp_store_debian.Prelude.Control.{ok}
use qpid_cpp_store_debian.Fcntl.{Fcntl}
use qpid_cpp_store_debian.Lpmgr.{
  Lpmgr, Factory, insert_at, renumber, insert_loop, insert_files, insert, eff_ae_max_jfiles,
}
use qpid_cpp_store_debian.Lpmgr.Order.{
  count, IsValid, Makes, Split, Split-insert_at, Split-of_Numbered, count-insert_at,
  length-insert_at, renumber-Split,
}

-- The list of `l'` has `n` files more than that of `l`, from place `lid` on and with the physical
-- numbers from `pfid` on.
record Grown (n lid pfid j : ℕ) (l l' : Lpmgr) : Type 0 where
  split : Split 0 (lid + n) j l'.fcntl_arr
  files : length l'.fcntl_arr ≡ length l.fcntl_arr + n
  counts :
      (p : ℕ)
      → count p l'.fcntl_arr
        ≡ (if leb pfid p && ltb p (pfid + n) then 1 else 0) + count p l.fcntl_arr

insert_loop_ok :
    (fp : Factory) (n lid pfid : ℕ) (l : Lpmgr) (f : Fcntl)
    → fp (u16 lid) (u16 pfid) none ≡ ok f
    → insert_loop fp (suc n) lid pfid l
      ≡ insert_loop fp n
          (suc lid)
          (suc pfid)
          (record l { fcntl_arr = insert_at l.fcntl_arr lid (some f) })
unfolding insert_loop
insert_loop_ok fp n lid pfid l f q = ground (arith, q)

-- The loop of `insert` returns, and grows the list.
insert_loop-Grown :
    (fp : Factory) (n lid pfid j : ℕ) (l : Lpmgr)
    → Makes fp
    → pfid + n < 2 ^ 16
    → lid + n < 2 ^ 16
    → Split 0 lid j l.fcntl_arr
    → ((insert_loop fp n lid pfid l).0 ≡ ok tt)
      × Grown n lid pfid j l (insert_loop fp n lid pfid l).1
unfolding insert_loop
insert_loop-Grown fp zero lid pfid j l m b c s = (
  refl,
  record {
    split = subst (λ k. Split 0 k j l.fcntl_arr) (omega arith) s;
    files = omega arith;
    counts = λ p. ground arith;
  },
)
insert_loop-Grown fp (suc n) lid pfid j l m b c s =
    let (f, q, en, ep) = m (u16 lid) (u16 pfid) in
    let l' : Lpmgr = record l { fcntl_arr = insert_at l.fcntl_arr lid (some f) } in
    let back = sym (insert_loop_ok fp n lid pfid l f q) in
    let (r, w) =
      insert_loop-Grown fp n (suc lid) (suc pfid) j l' m (omega (arith, b)) (omega (arith, c))
        (Split-insert_at 0 lid j l.fcntl_arr f s (omega (arith, en, c))) in
    (
      ap (λ z. z.0) (sym back) ∙ r,
      subst (Grown (suc n) lid pfid j l) (ap (λ z. z.1) back) (record {
        split =
            subst (λ k. Split 0 k j (insert_loop fp n (suc lid) (suc pfid) l').1.fcntl_arr)
              (omega arith) w.split;
        files = omega (arith, w.files, length-insert_at lid l.fcntl_arr (some f));
        counts = λ p. ground (arith, w.counts p, count-insert_at p lid l.fcntl_arr f, ep, b);
      }),
    )

insert_files_lem :
    (after_lfid n : ℕ) (fp : Factory) (l : Lpmgr) (ys : List (Option Fcntl))
    → let (r, l') = insert_loop fp n (after_lfid + 1) (length l.fcntl_arr) l in
      r ≡ ok tt
      → renumber (after_lfid + n + 1) n l'.fcntl_arr ≡ some ys
      → insert_files after_lfid fp n l ≡ (ok tt, record l' { fcntl_arr = ys })
unfolding insert_files
insert_files_lem after_lfid n fp l ys r e = ground (arith, r, e)

insert_files-IsValid :
    (after_lfid n : ℕ) (fp : Factory) (l : Lpmgr)
    → Makes fp
    → after_lfid < length l.fcntl_arr
    → length l.fcntl_arr + n < 2 ^ 16
    → IsValid l
    → let (r, l') = insert_files after_lfid fp n l in
      (r ≡ ok tt) × IsValid l' × (length l'.fcntl_arr ≡ length l.fcntl_arr + n)
insert_files-IsValid after_lfid n fp l m h b v =
    let k = after_lfid + 1 in
    let l' = (insert_loop fp n k (length l.fcntl_arr) l).1 in
    let start =
      subst (λ j. Split 0 k j l.fcntl_arr) {y = k} (omega arith)
        (Split-of_Numbered 0 k l.fcntl_arr (omega (arith, h)) v.numbered) in
    let (r, g) =
      insert_loop-Grown fp n k (length l.fcntl_arr) k l m b (omega (arith, h, b)) start in
    let (ys, e, num, len, cnt) =
      renumber-Split 0 (after_lfid + n + 1) k n l'.fcntl_arr
        (subst (λ i. Split 0 i k l'.fcntl_arr) {y = after_lfid + n + 1} (omega arith) g.split)
        (omega arith) (omega (arith, g.files, b)) in
    subst (λ z. (z.0 ≡ ok tt) × IsValid z.1 × (length z.1.fcntl_arr ≡ length l.fcntl_arr + n))
      (sym (insert_files_lem after_lfid n fp l ys r e))
      (
        refl,
        record {
          numbered = num;
          unique = λ p. ground (arith, cnt p, g.counts p, v.unique p, len, g.files);
        },
        omega (arith, len, g.files),
      )

-- In a list whose logical numbers are the places and whose physical numbers are those below the
-- number of files, each once, with auto-expansion on, a place of the list and room for `n` files:
-- `insert` returns and the list is again such a list, with `n` files more. The files are at most
-- 65535, and a factory makes files with the numbers asked for.
pub insert-IsValid :
    (after_lfid n : ℕ) (fp : Factory) (l : Lpmgr)
    → Makes fp
    → after_lfid < length l.fcntl_arr
    → l.ae ≡ true
    → length l.fcntl_arr + n ≤ eff_ae_max_jfiles l
    → l.ae_max_jfiles < 2 ^ 16
    → IsValid l
    → let (r, l') = insert after_lfid fp n l in
      (r ≡ ok tt) × IsValid l' × (length l'.fcntl_arr ≡ length l.fcntl_arr + n)
unfolding insert
insert-IsValid after_lfid n fp l m h a c b v = elim (ℕ_discrete n 0) [
  | yes e ↦ ground (arith, h, a, c, v)
  | no e ↦ ground (arith, insert_files-IsValid after_lfid n fp l m h (ground arith) v)
]
