-- ===== src/Records/Txn/Writer.antt =====
-- Commit and abort records as page writers.
use qpid_cpp_store_debian.Prelude.{
  ℕ, ◌-◌, ◌*◌, ◌++◌, ◌≤◌, ◌≡◌, List, length, arith, length-append, length-replicate, replicate,
}
use qpid_cpp_store_debian.Prelude.Control.{ok}
use qpid_cpp_store_debian.Records.{clean_char}
use qpid_cpp_store_debian.Records.Pages.{PageWriter, AllRooms, sum, write_pages, write_pages_lem}
use qpid_cpp_store_debian.Records.Txn.{TxnRec, encode, txn_hdr_bytes, length-txn_hdr_bytes}
use qpid_cpp_store_debian.Records.Txn.Encode.{
  IsSized, body, bytes_in, dblks_in, image, encode_slice_txn, length-body,
}

pub length-image : (r : TxnRec) → IsSized r → length (image r) ≡ dblks_in r * 128
length-image r s = omega (
  arith,
  length-append (txn_hdr_bytes r.txn_hdr)
      (body r ++ replicate (dblks_in r * 128 - bytes_in r) clean_char),
  length-append (body r) (replicate (dblks_in r * 128 - bytes_in r) clean_char),
  length-replicate (dblks_in r * 128 - bytes_in r) clean_char,
  length-txn_hdr_bytes r.txn_hdr,
  length-body r s,
)

abbrev pub writer : (r : TxnRec) → IsSized r → PageWriter
writer r s = record {
  encode = encode r;
  total = dblks_in r;
  image = image r;
  length_image = length-image r s;
  slice = λ offs m h p q. encode_slice_txn r offs m s h p q;
}

-- A commit or abort record written over any sequence of pages that together have room for it, each
-- with some room and below 2 ^ 25 data blocks, lies on the pages byte for byte: header, xid, tail
-- and clean bytes up to the last whole data block, and just as many data blocks are written. The xid is
-- not empty and has the size in the header, and the record is below 4 GB.
pub write_pages-txn :
    (r : TxnRec) (ms : List ℕ) (s : IsSized r)
    → AllRooms ms
    → dblks_in r ≤ sum ms
    → write_pages (writer r s) 0 ms ≡ ok (dblks_in r, image r)
write_pages-txn r ms s a h = write_pages_lem (writer r s) 0 ms (omega arith) a (omega arith)
