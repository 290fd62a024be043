-- ===== src/Wmgr/Fits/Loop.antt =====
-- The loops of `wmgr::enqueue`, `dequeue`, `abort` and `commit` (lib/jrnl/wmgr.cpp) come to an end, in
-- step with the file.
use qpid_cpp_store_debian.Prelude.{
  ℕ, zero, suc, ◌-◌, ◌≤◌, ◌<◌, ◌≡◌, refl, ap, subst, Bool, true, false, leb, sub32, arith, inl, inr,
  ◌⊎◌, if◌then◌else◌,
}
use qpid_cpp_store_debian.Prelude.Control.{◌>>◌, pure}
use qpid_cpp_store_debian.Prelude.Control.Triple
use qpid_cpp_store_debian.Prelude.Control.Triple.{Triple, Holds}
use qpid_cpp_store_debian.DataTok
use qpid_cpp_store_debian.Wrfc.{Iores}
use qpid_cpp_store_debian.Wmgr.State.{Busy, Aio, set_tok}
use qpid_cpp_store_debian.Wmgr.Flush.{Loop, is_success, file_header_check, flush_check}
use qpid_cpp_store_debian.Wmgr.Ops.{Job, complete_check, write_round, write_loop}
use qpid_cpp_store_debian.Wmgr.Frame.{View, view, Only, frame_set_tok, frame_tok}
use qpid_cpp_store_debian.Wmgr.Fits.Flush.{framed}
use qpid_cpp_store_debian.Wmgr.Fits.Check.{Writable, Blocked, Checked, flush-Checked}
use qpid_cpp_store_debian.Wmgr.Fits.Header.{Unheaded, Filled, header_checked}
use qpid_cpp_store_debian.Wmgr.Fits.Round.{IsSound, At, Grown, filled}

module _ (j : Job) (B : Busy → Type 0) (sound : IsSound j) where
  -- `k` blocks are written, more than `m`, and `done` tells whether they are all.
  abbrev Grew : ℕ → ℕ → Bool → Type 0
  Grew m k done = (m < k) × (k ≤ j.size) × (done ≡ leb j.size k)

  abbrev Ended : ℕ → Bool → View → Type 0
  Ended m done v = (k : ℕ) × (Grew m k done × Unheaded j.p (At j B k) v)

  written_now : (k : ℕ) (v : View) → Unheaded j.p (At j B k) v → v.written ≡ k
  written_now k v (inl h, o) = h.other.1
  written_now k v (inr (h, c, g), o) = g.1

  completed-At :
      (m k : ℕ)
      → m < k
      → k ≤ j.size
      → (b : Bool) → b ≡ leb j.size k
      → Triple
          (λ w. Unheaded j.p (At j B k) (view j.p w))
          (if b
            then j.complete >> pure true
            else set_tok j.p (DataTok.set_wstate j.part) >> pure false)
          (λ done w. Ended m done (view j.p w))
          Only
  completed-At m k n l true e =
      Triple.seq (framed j.p (Unheaded j.p (At j B k)) (sound.completes (Unheaded j.p (At j B k))))
        (Triple.returned true (λ s h. (k, ((n, l, e), h))))
  completed-At m k n l false e =
      Triple.seq
        (framed j.p (Unheaded j.p (At j B k))
          (frame_set_tok j.p (Unheaded j.p (At j B k)) j.p (DataTok.set_wstate j.part) (λ t. refl)))
        (Triple.returned false (λ s h. (k, ((n, l, e), h))))

  completed :
      (m : ℕ)
      → Triple
          (λ w. Grown j B m (view j.p w))
          (complete_check j)
          (λ done w. Ended m done (view j.p w))
          Only
  unfolding complete_check
  completed m = record {
    apply = λ w h.
        (completed-At m h.0 h.1 h.2 (leb j.size (w.toks j.p).dblks_written)
            (ap (leb j.size) (written_now h.0 (view j.p w) h.3))).apply
          w h.3;
  }

  -- After a round that began with `m` blocks.
  abbrev Rounded : ℕ → Loop → View → Type 0
  Rounded m l v = (k : ℕ) × ((m < k) × (k ≤ j.size)) × Checked j.p (At j B k) (leb j.size k) l v

  some_pgs : (k : ℕ) (b : Busy) (n pgs : ℕ) → At j B k b n pgs → 0 < pgs
  some_pgs k b n pgs h = h.2

  checked :
      (m k : ℕ) (io : Aio) (l : Loop)
      → Grew m k l.done
      → Triple
          (λ w. Filled j.p (At j B k) (view j.p w))
          (flush_check io l)
          (λ l' w. Rounded m l' (view j.p w))
          Only
  checked m k io l (n, le, e) =
      Triple.weaken (flush-Checked j.p (At j B k) (some_pgs k) io l) (λ s h. (h.0, h.1.0, h.1.1))
        (λ l' s h. (k, (n, le), subst (λ b. Checked j.p (At j B k) b l' (view j.p s)) e h))
        (λ x s h. h)

  round_checked :
      (m k : ℕ) (io : Aio) (l : Loop) (cont : Bool) (rem : ℕ)
      → Grew m k l.done
      → Triple
          (λ w. Unheaded j.p (At j B k) (view j.p w))
          (file_header_check io j.rid cont rem >> flush_check io l)
          (λ l' w. Rounded m l' (view j.p w))
          Only
  round_checked m k io l cont rem g =
      Triple.seq (header_checked j.p (At j B k) io j.rid cont rem) (checked m k io l g)

  rounded :
      (m : ℕ) (io : Aio) (l : Loop)
      → m < j.size
      → Triple
          (λ w. Writable j.p (At j B m) (view j.p w))
          (write_round io j l)
          (λ l' w. Rounded m l' (view j.p w))
          Only
  unfolding write_round
  rounded m io l small =
      Triple.bind
        (framed j.p (Writable j.p (At j B m)) (frame_tok j.p (Writable j.p (At j B m)) j.p))
        (λ t. Triple.seq (filled j B m sound small) (
          Triple.bind (completed m) (λ done. Triple.exists (λ k. Triple.given (λ g.
            round_checked m k io (record l { done = done }) l.cont (sub32 j.size t.dblks_written)
              g)))))

  -- The outcome of the loop: a record is complete on a success.
  abbrev pub Outcome : Iores → View → Type 0
  Outcome res v =
      (k : ℕ) × (k ≤ j.size)
      × (is_success res ≡ true → k ≡ j.size)
      × (Writable j.p (At j B k) v ⊎ Blocked j.p (At j B k) res v)

  finished : (m : ℕ) (l : Loop) (v : View) → l.done ≡ true → Rounded m l v → Outcome l.res v
  finished m l v e (k, (n, le), (inl h, f, g)) = (
    k,
    le,
    λ s. elim (g e) [ inl q ↦ ground (arith, q, le) | inr q ↦ absurd (ground (arith, q, s)) ],
    inl h,
  )
  finished m l v e (k, (n, le), (inr (h, d), f, g)) = (
    k,
    le,
    λ s. elim (g e) [ inl q ↦ ground (arith, q, le) | inr q ↦ absurd (ground (arith, q, s)) ],
    inr h,
  )

  goes_on :
      (m : ℕ) (l : Loop) (v : View)
      → l.done ≡ false
      → Rounded m l v
      → (k : ℕ) × (((m < k) × (k < j.size)) × Writable j.p (At j B k) v)
  goes_on m l v e (k, (n, le), (inl h, f, g)) = (k, ((n, ground (arith, f e)), h))
  goes_on m l v e (k, (n, le), (inr (h, d), f, g)) = absurd (ground (arith, d, e))

  after_round :
      (m fuel : ℕ) (io : Aio) (l : Loop) (b : Bool)
      → l.done ≡ b
      → ((k : ℕ)
          → (m < k) × (k < j.size)
          → Triple
              (λ w. Writable j.p (At j B k) (view j.p w))
              (write_loop io fuel j l)
              (λ res w. Outcome res (view j.p w))
              Only)
      → Triple
          (λ w. Rounded m l (view j.p w))
          (elim b [ true ↦ pure l.res | false ↦ write_loop io fuel j l ])
          (λ res w. Outcome res (view j.p w))
          Only
  after_round m fuel io l true e ih = Triple.returned l.res (λ s h. finished m l (view j.p s) e h)
  after_round m fuel io l false e ih =
      Triple.weaken (Triple.exists (λ k. Triple.given (ih k))) (λ s h. goes_on m l (view j.p s) e h)
        (λ a s q. q) (λ x s q. q)

  pub looped :
      (fuel m : ℕ) (io : Aio) (l : Loop)
      → m < j.size
      → j.size - m ≤ fuel
      → Triple
          (λ w. Writable j.p (At j B m) (view j.p w))
          (write_loop io fuel j l)
          (λ res w. Outcome res (view j.p w))
          Only
  unfolding write_loop
  looped zero m io l small few = absurd (omega (arith, small, few))
  looped (suc fuel) m io l small few = Triple.bind (rounded m io l small) (λ l'.
      after_round m fuel io l' l'.done refl
        (λ k g. looped fuel k io l' g.1 (omega (arith, g.0, few))))
