-- ===== src/Wmgr/Frame.antt =====
-- What most of lib/jrnl/wmgr.cpp leaves alone: the flags, the position in the page cache and in the
-- file, and how much of a token's record is written.
pub mod Files
pub mod Events
pub mod Complete
use qpid_cpp_store_debian.Prelude.{
  ℕ, zero, suc, [], ◌∷◌, ◌≡◌, ◌≢◌, refl, sym, ap, subst, ◌∙◌, Bool, true, false, Option, none, some,
  List, length, length-set, get_elem?, get_elem?-set_self, get_elem?-set_ne, set, ◌==◌, ℕ_discrete,
  Option-cases, inl, inr, if◌then◌else◌, arith,
}
use qpid_cpp_store_debian.Prelude.Control.{
  Error, Result, ok, throw, M, ◌>>=◌, ◌>>◌, pure, raise, get, require, undefined, out_of_fuel,
  jerr_fcntl_fileoffsovfl,
}
use qpid_cpp_store_debian.Prelude.Control.Triple
use qpid_cpp_store_debian.Prelude.Control.Triple.{Triple, Holds}
use qpid_cpp_store_debian.Fcntl.{Fcntl}
use qpid_cpp_store_debian.Lpmgr.{get_fcntlp}
use qpid_cpp_store_debian.Wrfc.{Wrfc, current, on_current, on_file, put_file}
use qpid_cpp_store_debian.EnqMap.{EnqMap}
use qpid_cpp_store_debian.TxnMap.{TxnMap}
use qpid_cpp_store_debian.DataTok.{DataTok}
use qpid_cpp_store_debian.Wmgr.State.{
  Wmgr, Busy, Cache, PageCb, Outside, with_wrfc, with_emap, with_tmap, on_file_at, on_wr_file,
  with_tok, set_tok, tok, page_at, put_page, alter_page, current_page, on_outside,
}

-- Whether there is a current file, the blocks submitted to it, and its size.
pub record Position : Type 0 where
  pub active : Bool
  pub subm : ℕ
  pub full : ℕ

abbrev pub position : Option Fcntl → Position
position none = record { active = false; subm = 0; full = 0 }
position (some f) = record { active = true; subm = f.wr_subm_cnt_dblks; full = f.ffull_dblks }

-- The size of each file.
abbrev pub size_at : Option Fcntl → Option ℕ
size_at none = none
size_at (some f) = some f.ffull_dblks

abbrev pub sizes : List (Option Fcntl) → List (Option ℕ)
sizes [] = []
sizes (o ∷ os) = size_at o ∷ sizes os

-- The position in the page cache.
pub record Place : Type 0 where
  pub pgsize_sblks : ℕ
  pub num_pages : ℕ
  pub count : ℕ
  pub pg_index : ℕ
  pub pg_cntr : ℕ
  pub offset : ℕ
  pub cached : ℕ

abbrev pub place : Cache → Place
place c = record {
  pgsize_sblks = c.cache_pgsize_sblks;
  num_pages = c.cache_num_pages;
  count = length c.page_cb_arr;
  pg_index = c.pg_index;
  pg_cntr = c.pg_cntr;
  offset = c.pg_offset_dblks;
  cached = c.cached_offset_dblks;
}

pub record View : Type 0 where
  pub busy : Busy
  pub written : ℕ
  pub at : Place
  pub jfsize_pgs : ℕ
  pub file : Position
  pub sizes : List (Option ℕ)

abbrev pub view : ℕ → Wmgr → View
view p w = record {
  busy = w.busy;
  written = (w.toks p).dblks_written;
  at = place w.cache;
  jfsize_pgs = w.jfsize_pgs;
  file = position (current w.wrfc);
  sizes = sizes w.wrfc.lpm.fcntl_arr;
}

-- The errors that stand for a loop of the model without fuel and for a write past the end of a file
-- are not allowed.
abbrev pub allowed : Error → Bool
allowed e = elim e [ out_of_fuel ↦ false | jerr_fcntl_fileoffsovfl ↦ false | _ ↦ true ]

abbrev pub fine : {A : Type 0} → Result A → Bool
fine (ok a) = true
fine (throw e) = allowed e

-- A property of the view is kept, and only allowed errors are thrown.
abbrev pub Frames : {A : Type 0} → ℕ → (View → Type 0) → M Wmgr A → Type 0
Frames p P m =
    Triple (λ w. P (view p w)) m (λ _ w. P (view p w)) (λ e w. P (view p w) × (allowed e ≡ true))

module _ (p : ℕ) (P : View → Type 0) where
  Holds-view :
      {A : Type 0} (r : Result A) (v w : Wmgr)
      → view p v ≡ view p w
      → fine r ≡ true
      → P (view p w)
      → Holds (λ _ w. P (view p w)) (λ e w. P (view p w) × (allowed e ≡ true)) r v
  Holds-view (ok a) v w e n h = subst P (sym e) h
  Holds-view (throw x) v w e n h = (subst P (sym e) h, n)

  pub same :
      {A : Type 0} (m : M Wmgr A)
      → ((w : Wmgr) → view p (m w).1 ≡ view p w)
      → ((w : Wmgr) → fine (m w).0 ≡ true)
      → Frames p P m
  same m e n = record { apply = λ w h. Holds-view (m w).0 (m w).1 w (e w) (n w) h }

  pub frame_bind :
      {A B : Type 0} {m : M Wmgr A} {f : A → M Wmgr B}
      → Frames p P m
      → ((a : A) → Frames p P (f a))
      → Frames p P (m >>= f)
  frame_bind h k = Triple.bind h k

  pub frame_seq :
      {B : Type 0} {m : M Wmgr (Unit {0})} {k : M Wmgr B}
      → Frames p P m
      → Frames p P k
      → Frames p P (m >> k)
  frame_seq h k = Triple.seq h k

  pub frame_pure : {A : Type 0} (a : A) → Frames p P (pure {S = Wmgr} a)
  frame_pure a = record { apply = λ w h. h }

  pub frame_get : Frames p P (get {S = Wmgr})
  frame_get = record { apply = λ w h. h }

  pub frame_raise :
      {A : Type 0} (e : Error) → allowed e ≡ true → Frames p P (raise {S = Wmgr} {A = A} e)
  frame_raise e n = record { apply = λ w h. (h, n) }

  pub frame_require :
      (b : Bool) (e : Error) → allowed e ≡ true → Frames p P (require {S = Wmgr} b e)
  frame_require true e n = record { apply = λ w h. h }
  frame_require false e n = record { apply = λ w h. (h, n) }

  pub frame_if :
      {A : Type 0} (b : Bool) {m k : M Wmgr A}
      → Frames p P m
      → Frames p P k
      → Frames p P (if b then m else k)
  frame_if true h k = h
  frame_if false h k = k

  pub frame_tok : (q : ℕ) → Frames p P (tok q)
  frame_tok q = record { apply = λ w h. h }

  pub frame_outside : (f : Outside → Outside) → Frames p P (on_outside f)
  frame_outside f = record { apply = λ w h. h }

  pub frame_set_tok :
      (q : ℕ) (f : DataTok → DataTok)
      → ((t : DataTok) → (f t).dblks_written ≡ t.dblks_written)
      → Frames p P (set_tok q f)
  frame_set_tok q f e = same (set_tok q f) (λ w. ground (arith, e (w.toks q))) (λ w. refl)

  pub frame_page_at : (i : ℕ) → Frames p P (page_at i)
  unfolding page_at
  frame_page_at i = same (page_at i) (λ w. ground arith) (λ w. ground arith)

  pub frame_put_page : (i : ℕ) (g : PageCb) → Frames p P (put_page i g)
  frame_put_page i g =
      same (put_page i g) (λ w. ground (arith, length-set w.cache.page_cb_arr i g)) (λ w. refl)

  pub frame_alter_page : (i : ℕ) (f : PageCb → PageCb) → Frames p P (alter_page i f)
  unfolding alter_page
  frame_alter_page i f = frame_bind (frame_page_at i) (λ g. frame_put_page i (f g))

  pub frame_current_page : Frames p P current_page
  unfolding current_page page_at
  frame_current_page = same current_page (λ w. ground arith) (λ w. ground arith)

  pub frame_emap :
      {A : Type 0} (m : M EnqMap A)
      → ((e : EnqMap) → fine (m e).0 ≡ true)
      → Frames p P (with_emap m)
  frame_emap m n = same (with_emap m) (λ w. refl) (λ w. n w.emap)

  pub frame_tmap :
      {A : Type 0} (m : M TxnMap A)
      → ((e : TxnMap) → fine (m e).0 ≡ true)
      → Frames p P (with_tmap m)
  frame_tmap m n = same (with_tmap m) (λ w. refl) (λ w. n w.tmap)

  pub frame_with_tok :
      {A : Type 0} (q : ℕ) (m : M DataTok A)
      → ((t : DataTok) → (m t).1.dblks_written ≡ t.dblks_written)
      → ((t : DataTok) → fine (m t).0 ≡ true)
      → Frames p P (with_tok q m)
  frame_with_tok q m e n =
      same (with_tok q m) (λ w. ground (arith, e (w.toks q))) (λ w. n (w.toks q))

-- Only allowed errors, and any state after them.
abbrev pub Only : {S : Type 0} → Error → S → Type 0
Only e w = allowed e ≡ true
