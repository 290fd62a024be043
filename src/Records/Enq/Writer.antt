-- ===== src/Records/Enq/Writer.antt =====
-- Enqueue records as page writers.
use qpid_cpp_store_debian.Prelude.{
  ℕ, ◌-◌, ◌*◌, ◌++◌, ◌≤◌, ◌≡◌, false, List, length, arith, length-append, length-replicate,
  replicate,
}
use qpid_cpp_store_debian.Prelude.Control.{ok}
use qpid_cpp_store_debian.Records.{clean_char}
use qpid_cpp_store_debian.Records.Pages.{PageWriter, AllRooms, sum, write_pages, write_pages_lem}
use qpid_cpp_store_debian.Records.Enq.{
  EnqRec, is_external, encode, enq_hdr_bytes, length-enq_hdr_bytes,
}
use qpid_cpp_store_debian.Records.Enq.Encode.{
  IsSized, body, bytes_in, dblks_in, image, encode_slice, length-body,
}

pub length-image :
    (r : EnqRec) → IsSized r → is_external r.enq_hdr ≡ false → length (image r) ≡ dblks_in r * 128
length-image r s internal = omega (
  arith,
  length-append (enq_hdr_bytes r.enq_hdr)
      (body r ++ replicate (dblks_in r * 128 - bytes_in r) clean_char),
  length-append (body r) (replicate (dblks_in r * 128 - bytes_in r) clean_char),
  length-replicate (dblks_in r * 128 - bytes_in r) clean_char,
  length-enq_hdr_bytes r.enq_hdr,
  length-body r s internal,
)

abbrev pub writer : (r : EnqRec) → IsSized r → is_external r.enq_hdr ≡ false → PageWriter
writer r s internal = record {
  encode = encode r;
  total = dblks_in r;
  image = image r;
  length_image = length-image r s internal;
  slice = λ offs m h p q. encode_slice r offs m s internal h p q;
}

-- An enqueue record written over any sequence of pages that together have room for it, each with
-- some room and below 2 ^ 25 data blocks, lies on the pages byte for byte: header, xid, data, tail
-- and clean bytes up to the last whole data block, and just as many data blocks are written. The
-- record's data is in the journal, and its buffers have the sizes of its header, below 4 GB in all.
pub write_pages-enq :
    (r : EnqRec) (ms : List ℕ) (s : IsSized r) (internal : is_external r.enq_hdr ≡ false)
    → AllRooms ms
    → dblks_in r ≤ sum ms
    → write_pages (writer r s internal) 0 ms ≡ ok (dblks_in r, image r)
write_pages-enq r ms s internal a h =
    write_pages_lem (writer r s internal) 0 ms (omega arith) a (omega arith)
