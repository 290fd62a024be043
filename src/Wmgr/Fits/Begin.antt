-- ===== src/Wmgr/Fits/Begin.antt =====
-- The start and the end of an operation of lib/jrnl/wmgr.cpp that is not continued.
use qpid_cpp_store_debian.Prelude.{
  ℕ, suc, ◌-◌, ◌*◌, ◌≤◌, ◌<◌, ◌≡◌, refl, sym, subst, Bool, true, false, not, ◌||◌, Option, none,
  some, leb, min, take, drop, arith, inl, inr, ◌⊎◌, if◌then◌else◌,
}
use qpid_cpp_store_debian.Prelude.Control.{
  Error, ok, M, ◌>>=◌, ◌>>◌, pure, raise, jerr_wmgr_badpgstate,
}
use qpid_cpp_store_debian.Prelude.Control.Triple
use qpid_cpp_store_debian.Prelude.Control.Triple.{Triple, Holds}
use qpid_cpp_store_debian.DataTok.{DataTok, WriteState, wstate_value}
use qpid_cpp_store_debian.Records.Pages.{PageWriter}
use qpid_cpp_store_debian.Wrfc
use qpid_cpp_store_debian.Wrfc.{Iores, iores_success, iores_full, iores_page_aiowait, current}
use qpid_cpp_store_debian.Wmgr.State.{
  Wmgr, Busy, Aio, PageState, unused, in_use, aio_pending, aio_complete, with_wrfc, set_busy,
}
use qpid_cpp_store_debian.Wmgr.Flush.{Loop, is_success, use_page}
use qpid_cpp_store_debian.Wmgr.Checks.{
  OpType, op_enqueue, op_dequeue, op_abort, op_commit, file_check, page_check, op_check,
  pre_write_check,
}
use qpid_cpp_store_debian.Wmgr.Ops.{Job, write_loop, continued, next_rid, release}
use qpid_cpp_store_debian.Wmgr.Frame.{
  View, view, Only, Frames, same, frame_tok, frame_pure, frame_seq, frame_bind, frame_raise,
  frame_current_page,
}
use qpid_cpp_store_debian.Wmgr.Fits.Flush.{framed}
use qpid_cpp_store_debian.Wmgr.Fits.Flush.Send.{frame_use_page}
use qpid_cpp_store_debian.Wmgr.Fits.Rotate.{Between, resets}
use qpid_cpp_store_debian.Wmgr.Fits.Check.{Writable, Blocked, begins}
use qpid_cpp_store_debian.Wmgr.Fits.Round.{IsSound, Encodes, At}
use qpid_cpp_store_debian.Wmgr.Fits.Loop.{Outcome, looped}

-- The flag of an operation, and whether one of the other three is busy.
abbrev pub own : OpType → Busy → Bool
own op_enqueue b = b.enq_busy
own op_dequeue b = b.deq_busy
own op_abort b = b.abort_busy
own op_commit b = b.commit_busy

abbrev pub others : OpType → Busy → Bool
others op_enqueue b = b.deq_busy || (b.abort_busy || b.commit_busy)
others op_dequeue b = b.enq_busy || (b.abort_busy || b.commit_busy)
others op_abort b = b.enq_busy || (b.deq_busy || b.commit_busy)
others op_commit b = b.enq_busy || (b.deq_busy || b.abort_busy)

abbrev pub Alone : OpType → Busy → Type 0
Alone op b = others op b ≡ false

-- No operation is in progress.
abbrev pub Idle : OpType → Busy → ℕ → ℕ → Type 0
Idle op b n pgs = (others op b ≡ false) × (own op b ≡ false) × (0 < pgs)

-- A page writer is an encoder of its record.
pub writer-Encodes : (w : PageWriter) (n : ℕ) → w.total ≡ n → Encodes w.encode n
writer-Encodes w n e offs m l pos small = (
  min m (n - offs),
  take (m * 128) (drop (offs * 128) w.image),
  subst (λ k. w.encode offs m ≡ ok (min m (k - offs), take (m * 128) (drop (offs * 128) w.image))) e
      (w.slice offs m (omega (arith, l, e)) pos small),
  omega (arith, l, pos),
  omega arith,
  omega arith,
)

-- Other flags and another count of written blocks.
abbrev pub renew : Busy → ℕ → View → View
renew b n v = record v { busy = b; written = n }

module _ (p : ℕ) (G H : Busy → ℕ → ℕ → Type 0) where
  pub renewed :
      (b : Busy) (n : ℕ) (v : View)
      → Writable p G v
      → (G v.busy v.written v.jfsize_pgs → H b n v.jfsize_pgs)
      → Writable p H (renew b n v)
  renewed b n v (inl h, o, c) f = (
    inl record {
      cache = h.cache;
      file = record {
        active = h.file.active;
        full = h.file.full;
        small = h.file.small;
        sized = h.file.sized;
        within = h.file.within;
        counted = h.file.counted;
      };
      other = f h.other;
    },
    o,
    c,
  )
  renewed b n v (inr (h, c', g), o, c) f = (
    inr (
      record {
        active = h.active;
        full = h.full;
        small = h.small;
        sized = h.sized;
        within = h.within;
        void = h.void;
        first = h.first;
        unsubmitted = h.unsubmitted;
      },
      c',
      f g,
    ),
    o,
    c,
  )

-- An operation that is not busy is not continued.
pub idle_continued :
    {A : Type 0} {P : Wmgr → Type 0} {Q : A → Wmgr → Type 0} (b : Bool) (s t : WriteState)
    (e : Error) (f : Bool → M Wmgr A)
    → b ≡ false
    → Triple P (f false) Q Only
    → Triple P (continued b s t e >>= f) Q Only
unfolding continued
idle_continued false s t e f h k = record { apply = λ w q. k.apply w q }
idle_continued true s t e f h k = cc

module _ (p : ℕ) (P : View → Type 0) where
  pub frame_next_rid : (ext : Bool) (rid : ℕ) → Frames p P (next_rid ext rid)
  unfolding next_rid current
  frame_next_rid true rid = same p P (next_rid true rid) (λ w. refl) (λ w. refl)
  frame_next_rid false rid = same p P (next_rid false rid) (λ w. refl) (λ w. refl)

module _ (p : ℕ) (G : Busy → ℕ → ℕ → Type 0) where
  renewed_between :
      (full : ℕ) (b : Busy) (v : View)
      → Between p G full v
      → (G v.busy v.written v.jfsize_pgs → G b v.written v.jfsize_pgs)
      → Between p G full (renew b v.written v)
  renewed_between full b v h f = record {
    cache = h.cache;
    first = h.first;
    start = h.start;
    flushed = h.flushed;
    whole = h.whole;
    small = h.small;
    sized = h.sized;
    other = f h.other;
  }

module _ (j : Job) (op : OpType) (sound : IsSound j) where
  abbrev pub Ends : Iores → View → Type 0
  Ends = Outcome j (Alone op) sound

  module _ (f : Busy → Busy) (keep : (b : Busy) → Alone op b → Alone op (f b)) where
    ended : (res : Iores) (v : View) → Ends res v → Ends res (renew (f v.busy) v.written v)
    ended res v (k, le, s, inl h) = (
      k,
      le,
      s,
      inl (
          renewed j.p (At j (Alone op) k) (At j (Alone op) k) (f v.busy) v.written v h
            (λ (a, e, n). (keep v.busy a, e, n))),
    )
    ended res v (k, le, s, inr (full, h, e)) = (
      k,
      le,
      s,
      inr (
        full,
        renewed_between j.p (At j (Alone op) k) full (f v.busy) v h
            (λ (a, i, n). (keep v.busy a, i, n)),
        e,
      ),
    )

    released :
        (state : WriteState) (res : Iores)
        → Triple
            (λ w. Ends res (view j.p w))
            (release j.p state f)
            (λ _ w. Ends res (view j.p w))
            Only
    unfolding release
    released state res = Triple.bind (framed j.p (Ends res) (frame_tok j.p (Ends res) j.p)) (λ t.
        Triple.choose (leb (wstate_value state) (wstate_value t.wstate)) {m = set_busy f}
          (λ e. record { apply = λ s h. ended res (view j.p s) h })
          (λ e. Triple.returned tt (λ s h. h)))

    -- The loop of an operation and what follows it.
    pub loop-Ends :
        (io : Aio) (state : WriteState) (l : Loop) (m : ℕ)
        → m < j.size
        → Triple
            (λ w. Writable j.p (At j (Alone op) m) (view j.p w))
            (write_loop io (suc j.size) j l >>= (λ res. release j.p state f >> pure res))
            (λ res w. Ends res (view j.p w))
            Only
    loop-Ends io state l m h =
        Triple.bind (looped j (Alone op) sound (suc j.size) m io l h (omega arith))
          (λ res. Triple.seq (released state res) (Triple.returned res (λ s q. q)))

-- `k` data blocks of the record of an operation are written, and no other operation is in progress.
abbrev pub Count : OpType → ℕ → Busy → ℕ → ℕ → Type 0
Count op k b n pgs = Alone op b × (n ≡ k) × (0 < pgs)

-- What an operation on a record of `size` data blocks leaves: on a success the whole record is
-- written; the cache is in step with the file, and there is room for another block unless the
-- operation had to wait for the next file.
abbrev pub Completes : ℕ → OpType → ℕ → Iores → View → Type 0
Completes p op size res v =
    (k : ℕ) × (k ≤ size)
    × (is_success res ≡ true → k ≡ size)
    × (Writable p (Count op k) v ⊎ Blocked p (Count op k) res v)

-- The cache is in step with the file, or with the next file, which is not entered yet.
abbrev pub Open : ℕ → (Busy → ℕ → ℕ → Type 0) → View → Type 0
Open p G v = Writable p G v ⊎ ((full : ℕ) × Between p G full v)

-- An operation can also end before it begins, without a success.
abbrev pub Attempts : ℕ → (Busy → ℕ → ℕ → Type 0) → OpType → ℕ → Iores → View → Type 0
Attempts p G op size res v = Completes p op size res v ⊎ ((is_success res ≡ false) × Open p G v)

-- Before an operation: the cache is in step with the current file, or that file is to be reset.
abbrev pub Begins : ℕ → (Busy → ℕ → ℕ → Type 0) → Wmgr → Type 0
Begins p G w =
    (Writable p G (view p w) × (w.wrfc.reset_ok ≡ true))
    ⊎ (((full : ℕ) × Between p G full (view p w)) × (w.wrfc.reset_ok ≡ false))

module _ (p : ℕ) (G : Busy → ℕ → ℕ → Type 0)
    (some_pgs : (b : Busy) (n j : ℕ) → G b n j → 0 < j) where
  abbrev Starts : View → Type 0
  Starts = Writable p G

  -- After a check: only a success means that the file can be written.
  abbrev pub Passed : Bool → View → Type 0
  Passed b v = Open p G v × (b ≡ true → Starts v)

  pub file_ok : Triple (Begins p G) file_check (λ b w. Passed b (view p w)) Only
  unfolding file_check
  file_ok =
      Triple.inspect {f = λ s. if s.wrfc.reset_ok then pure true else with_wrfc Wrfc.wr_reset}
        (λ s h. elim h [
          | inl (q, e) ↦ Triple.taken s.wrfc.reset_ok (with_wrfc Wrfc.wr_reset) e (record {
            apply = λ t r. (subst (λ (u : Wmgr). Passed true (view p u)) (sym r.1) (inl q, λ z. q));
          })
          | inr ((full, q), e) ↦ Triple.otherwise s.wrfc.reset_ok (pure true) e (
              Triple.weaken (resets p G full)
                (λ t r. subst (λ (u : Wmgr). Between p G full (view p u)) (sym r.1) q)
                (λ b t r. (inr (full, r.0), λ z. begins p G some_pgs full (view p t) r.0 (r.1 z)))
                (λ b t r. r))
        ])

  page_by :
      (s : PageState)
      → Frames {A = Option Iores} p Starts (elim s [
        | in_use ↦ pure none
        | unused ↦ use_page >> pure none
        | aio_pending ↦ pure (some iores_page_aiowait)
        | aio_complete ↦ raise jerr_wmgr_badpgstate
      ])
  page_by in_use = frame_pure p Starts none
  page_by unused = frame_seq p Starts (frame_use_page p Starts) (frame_pure p Starts none)
  page_by aio_pending = frame_pure p Starts (some iores_page_aiowait)
  page_by aio_complete = frame_raise p Starts jerr_wmgr_badpgstate refl

  pub frame_page_check : Frames p Starts page_check
  unfolding page_check
  frame_page_check = frame_bind p Starts (frame_current_page p Starts) (λ g. page_by g.state)

  pub checked_first :
      (op : OpType) (xidsize dsize : ℕ) (external : Bool)
      → ((t : DataTok) → Frames p Starts (op_check op t xidsize dsize external))
      → Triple
          (Begins p G)
          (pre_write_check op p xidsize dsize external)
          (λ res w. Passed (is_success res) (view p w))
          Only
  unfolding pre_write_check
  checked_first op xidsize dsize external k = Triple.bind file_ok (λ writable.
      Triple.choose (not writable) {m = pure iores_full}
        (λ e. Triple.returned iores_full (λ s q. (q.0, λ z. cc)))
        (λ e.
          Triple.weaken
            (framed p Starts (
              frame_bind p Starts frame_page_check
                (λ wait. frame_bind p Starts (frame_tok p Starts p) (λ t. waits wait t))))
            (λ s q. q.1 (ground (arith, e))) (λ r s q. (inl q, λ z. q)) (λ r s q. q)))
    where
      waits :
          (wait : Option Iores) (t : DataTok)
          → Frames {A = Iores} p Starts
              (elim wait [ some r ↦ pure r | none ↦ op_check op t xidsize dsize external ])
      waits none t = k t
      waits (some r) t = frame_pure p Starts r
