-- ===== src/Records/Enq/External.antt =====
-- `enq_rec::encode` on a record whose data is external (lib/jrnl/enq_rec.cpp, lines 177 to 184).
use qpid_cpp_store_debian.Prelude.{
  ℕ, ◌+◌, ◌-◌, ◌*◌, ◌^◌, ◌≤◌, ◌<◌, ◌≡◌, true, ◌++◌, length, replicate, arith,
}
use qpid_cpp_store_debian.Prelude.Control.{ok}
use qpid_cpp_store_debian.Records.{tail_bytes, length-tail_bytes, clean_char, size_dblks_lem}
use qpid_cpp_store_debian.Records.Slices.{take_all}
use qpid_cpp_store_debian.Records.Copy.{bytes_at, part_rest, last_tail}
use qpid_cpp_store_debian.Records.Chain.{null_size}
use qpid_cpp_store_debian.Records.Enq.{
  EnqRec, is_external, encode, encode_last, last_parts, rec_size,
}

-- If the tail of a record with external data is split, after `t` of its 12 bytes, then the next page
-- begins with the whole tail again, and not with the `12 - t` bytes that are due: the offset into
-- the tail is lost. The data's size is at least `t`, the page's room is
-- positive and below 2 ^ 25 data blocks, and the xid has the size in the header, below 4 GB.
pub encode_external_tail :
    (r : EnqRec) (offs m t : ℕ)
    → is_external r.enq_hdr ≡ true
    → r.enq_hdr.xidsize ≡ length (bytes_at r.xidp)
    → 44 + r.enq_hdr.xidsize < 2 ^ 32 - 128
    → offs * 128 ≡ 32 + r.enq_hdr.xidsize + t
    → 0 < t
    → t < 12
    → t ≤ r.enq_hdr.dsize
    → 0 < m
    → m < 2 ^ 25
    → encode r offs m ≡ ok (1, tail_bytes r.enq_tail ++ replicate 116 clean_char)
unfolding encode encode_last last_parts last_tail part_rest rec_size
encode_external_tail r offs m t ext xs small at p q d mp ms = rw ext (
    ground (
      arith,
      null_size r.xidp r.enq_hdr.xidsize xs,
      take_all 12 (tail_bytes r.enq_tail),
      length-tail_bytes r.enq_tail,
      size_dblks_lem 12,
      size_dblks_lem (44 + r.enq_hdr.xidsize),
      size_dblks_lem (12 - t),
    ))
