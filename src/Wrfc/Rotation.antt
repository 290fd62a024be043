-- ===== src/Wrfc/Rotation.antt =====
-- The rotation of lib/jrnl/wrfc.cpp through the journal's files.
use qpid_cpp_store_debian.Prelude.{
  ℕ, ◌+◌, ◌^◌, ◌≡◌, ◌<◌, false, not, ◌&&◌, none, some, length, length-set, arith, ◌==◌,
  if◌then◌else◌, ℕ_discrete, ap, sym, ◌∙◌, get_elem?-set_self, get_elem?-set_ne,
}
use qpid_cpp_store_debian.Prelude.Control.{ok}
use qpid_cpp_store_debian.Fcntl
use qpid_cpp_store_debian.Fcntl.{Fcntl}
use qpid_cpp_store_debian.Lpmgr.{get_fcntlp}
use qpid_cpp_store_debian.Wrfc.{
  Wrfc, Iores, iores_success, iores_file_aiowait, iores_full, current, on_current, point_to,
  advance, enter, rotate, wr_reset, put_file,
}

-- Every place of the list has a file, there are between 1 and 65535, and the index is a place.
pub record IsActive (w : Wrfc) : Type 0 where
  pub filled : (i : ℕ) → i < length w.lpm.fcntl_arr → (f : Fcntl) × (get_fcntlp i w.lpm ≡ some f)
  pub bounded : length w.lpm.fcntl_arr < 2 ^ 16
  pub placed : w.fc_index < length w.lpm.fcntl_arr

-- The result of `reset` on the file that is entered.
abbrev pub outcome : Fcntl → Iores
outcome f =
    if not (f.aio_cnt == 0)
    then iores_file_aiowait
    else if not (f.rec_enqcnt == 0)
    then iores_full
    else iores_success

-- The file that is entered, afterwards.
abbrev pub entered : Fcntl → Fcntl
entered f = if not (f.aio_cnt == 0) then f else (Fcntl.reset none f).1

pub get_fcntlp-put_file :
    (i j : ℕ) (f : Fcntl) (w : Wrfc)
    → i < length w.lpm.fcntl_arr
    → get_fcntlp j (put_file i f w).lpm ≡ (if j == i then some f else get_fcntlp j w.lpm)
unfolding get_fcntlp
get_fcntlp-put_file i j f w h = elim (ℕ_discrete j i) [
  | yes e ↦ ground (arith, get_elem?-set_self w.lpm.fcntl_arr i (some f) h)
  | no e ↦
      ground (arith, get_elem?-set_ne w.lpm.fcntl_arr {i = i} {j = j} (some f) (λ q. e (sym q)))
]

-- A rotation that has pointed to a file.
record Enters (i : ℕ) (f : Fcntl) (w : Wrfc) : Type 0 where
  returned : (enter w).0 ≡ ok (outcome f)
  files :
      (j : ℕ)
      → get_fcntlp j (enter w).1.lpm ≡ (if j == i then some (entered f) else get_fcntlp j w.lpm)
  count : length (enter w).1.lpm.fcntl_arr ≡ length w.lpm.fcntl_arr
  index : (enter w).1.fc_index ≡ w.fc_index
  pointer : (enter w).1.curr_fc ≡ w.curr_fc
  overwrite : (enter w).1.owi ≡ w.owi
  first : (enter w).1.frot ≡ w.frot

reset_lem : (f : Fcntl) → (Fcntl.reset none f).0 ≡ ok (f.rec_enqcnt == 0 && f.aio_cnt == 0)
unfolding Fcntl.reset Fcntl.wr_reset Fcntl.wr_reset_unused Fcntl.rd_reset
reset_lem f = ground arith

pub wr_reset_lem :
    (i : ℕ) (f : Fcntl) (w : Wrfc)
    → w.curr_fc ≡ some i
    → get_fcntlp i w.lpm ≡ some f
    → wr_reset w ≡ (
      ok (f.rec_enqcnt == 0 && f.aio_cnt == 0),
      record (put_file i (Fcntl.reset none f).1 w) {
        reset_ok = f.rec_enqcnt == 0 && f.aio_cnt == 0;
      },
    )
unfolding wr_reset on_current
wr_reset_lem i f w c e = ground (arith, c, e, reset_lem f)

enter-Enters :
    (i : ℕ) (f : Fcntl) (w : Wrfc)
    → w.curr_fc ≡ some i
    → get_fcntlp i w.lpm ≡ some f
    → i < length w.lpm.fcntl_arr
    → Enters i f w
unfolding enter current
enter-Enters i f w c e h = elim (ℕ_discrete f.aio_cnt 0) [
  | yes z ↦ record {
    returned = ground (arith, c, e, wr_reset_lem i f w c e);
    files = λ j.
        ground
          (arith, c, e, wr_reset_lem i f w c e, get_fcntlp-put_file i j (Fcntl.reset none f).1 w h);
    count = ground (
      arith,
      c,
      e,
      wr_reset_lem i f w c e,
      length-set w.lpm.fcntl_arr i (some (Fcntl.reset none f).1),
    );
    index = ground (arith, c, e, wr_reset_lem i f w c e);
    pointer = ground (arith, c, e, wr_reset_lem i f w c e);
    overwrite = ground (arith, c, e, wr_reset_lem i f w c e);
    first = ground (arith, c, e, wr_reset_lem i f w c e);
  }
  | no z ↦ record {
    returned = ground (arith, c, e);
    files = λ j. ground (arith, c, e);
    count = ground (arith, c, e);
    index = ground (arith, c, e);
    pointer = ground (arith, c, e);
    overwrite = ground (arith, c, e);
    first = ground (arith, c, e);
  }
]

-- What a rotation of `w` into file `f` at place `i` does.
pub record Rotates (i : ℕ) (f : Fcntl) (w : Wrfc) : Type 0 where
  pub returned : (rotate w).0 ≡ ok (outcome f)
  pub files :
      (j : ℕ)
      → get_fcntlp j (rotate w).1.lpm ≡ (if j == i then some (entered f) else get_fcntlp j w.lpm)
  pub count : length (rotate w).1.lpm.fcntl_arr ≡ length w.lpm.fcntl_arr
  pub index : (rotate w).1.fc_index ≡ i
  pub pointer : (rotate w).1.curr_fc ≡ some i
  pub overwrite : (rotate w).1.owi ≡ (if i == 0 then not w.owi else w.owi)
  pub first : (rotate w).1.frot ≡ (if i == 0 then false else w.frot)

-- The place after that of the index, round the ring.
abbrev pub next_place : Wrfc → ℕ
next_place w = if w.fc_index + 1 == length w.lpm.fcntl_arr then 0 else w.fc_index + 1

advance_lem :
    (w : Wrfc)
    → IsActive w
    → ((advance w).fc_index ≡ next_place w)
      × ((advance w).owi ≡ (if next_place w == 0 then not w.owi else w.owi))
      × ((advance w).frot ≡ (if next_place w == 0 then false else w.frot))
      × ((advance w).lpm ≡ w.lpm)
unfolding advance
advance_lem w a = ground (arith, a.bounded, a.placed)

rotate-enter :
    (w : Wrfc) → IsActive w → rotate w ≡ enter (point_to (advance w).fc_index (advance w))
unfolding rotate
rotate-enter w a = ground (arith, a.bounded, a.placed)

-- The controller that `rotate` hands to `enter`.
record Points (i : ℕ) (w v : Wrfc) : Type 0 where
  to : v.curr_fc ≡ some i
  shared : v.lpm ≡ w.lpm
  at : v.fc_index ≡ i
  owi : v.owi ≡ (if i == 0 then not w.owi else w.owi)
  frot : v.frot ≡ (if i == 0 then false else w.frot)

point_to-Points :
    (w : Wrfc) (f : Fcntl)
    → IsActive w
    → get_fcntlp (next_place w) w.lpm ≡ some f
    → Points (next_place w) w (point_to (advance w).fc_index (advance w))
unfolding point_to
point_to-Points w f a e =
    let (at, owi, frot, shared) = advance_lem w a in
    let found : get_fcntlp (advance w).fc_index (advance w).lpm ≡ some f = rw (at, shared) e in
    record { to = ground (arith, found, at); shared = shared; at = at; owi = owi; frot = frot }

-- Rotating an active controller enters the next place of the ring. It returns that the file's AIOs
-- are outstanding (the file is then left alone), that the file still has enqueued records, or
-- success after the reset of the file; no other file changes. The overwrite indicator flips, and
-- the first rotation ends, exactly at place 0.
pub rotate-Rotates :
    (w : Wrfc) (f : Fcntl)
    → IsActive w
    → get_fcntlp (next_place w) w.lpm ≡ some f
    → Rotates (next_place w) f w
rotate-Rotates w f a e =
    let v = point_to (advance w).fc_index (advance w) in
    let p = point_to-Points w f a e in
    let r = rotate-enter w a in
    let n =
      enter-Enters (next_place w) f v p.to (ap (get_fcntlp (next_place w)) p.shared ∙ e)
        (ground (arith, a.placed, p.shared)) in
    record {
      returned = ap (λ z. z.0) r ∙ n.returned;
      files = λ j. ground (arith, r, n.files j, p.shared);
      count =
          ap (λ z. length z.1.lpm.fcntl_arr) r ∙ n.count ∙ ap (λ l. length l.fcntl_arr) p.shared;
      index = ap (λ z. z.1.fc_index) r ∙ n.index ∙ p.at;
      pointer = ap (λ z. z.1.curr_fc) r ∙ n.pointer ∙ p.to;
      overwrite = ap (λ z. z.1.owi) r ∙ n.overwrite ∙ p.owi;
      first = ap (λ z. z.1.frot) r ∙ n.first ∙ p.frot;
    }

pub rotate-IsActive :
    (w : Wrfc)
    → IsActive w
    → IsActive (rotate w).1
      × (length (rotate w).1.lpm.fcntl_arr ≡ length w.lpm.fcntl_arr)
      × ((rotate w).1.fc_index ≡ next_place w)
      × ((rotate w).1.owi ≡ (if next_place w == 0 then not w.owi else w.owi))
rotate-IsActive w a =
    let (f, e) = a.filled (next_place w) (ground (arith, a.placed)) in
    let r = rotate-Rotates w f a e in
    (
      record {
        filled = λ j h. elim (ℕ_discrete j (next_place w)) [
          | yes q ↦ (entered f, ground (arith, r.files j))
          | no q ↦
              let (g, k) = a.filled j (omega (arith, h, r.count)) in
              (g, ground (arith, r.files j, k))
        ];
        bounded = omega (arith, r.count, a.bounded);
        placed = ground (arith, r.count, r.index, a.placed);
      },
      r.count,
      r.index,
      r.overwrite,
    )
