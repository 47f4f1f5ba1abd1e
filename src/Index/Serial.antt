-- ===== src/Index/Serial.antt =====
-- index.go: `readIndex` and `Write`, on the bytes of the index file.
pub mod Sorted
pub mod RoundTrip
use go_repo_dojo.Base.{
  ℕ, zero, suc, ◌+◌, ◌-◌, ◌*◌, ◌/◌, ◌%◌, ◌^◌, bit_and, bit_or, Bool, true, false, ◌&&◌, ◌||◌, not,
  Option, none, some, List, [], ◌∷◌, ◌++◌, ◌==◌, ltb, if◌then◌else◌, Bytes, bytes_eq, codes, length,
  take, drop, replicate, Result, ok, err, ◌>>=◌, or_err, index_too_short, invalid_index_signature,
  unsupported_index_version, truncated_index_entry, unterminated_index_path,
}
use go_repo_dojo.Binary.{uint16, uint32, put_uint16, put_uint32}
use go_repo_dojo.Hash.{HashKind, sha1_hash_kind, byte_len, bytes, hash_from_bytes}
use go_repo_dojo.Text.{index_byte}
use go_repo_dojo.Tree.{obj_type, unix_perm, bytes_less}
use go_repo_dojo.Index.{IndexEntry, Stages, Index, empty_index, add_entry}

-- The bytes behind an entry's end up to a multiple of eight.
unfoldable pub padding : ℕ → ℕ
padding size = (8 - size % 8) % 8

-- A regular file that is not 0o755 (493) gets 0o644 (420).
unfoldable pub normal_mode : ℕ → ℕ
normal_mode m =
    if obj_type m == 8 && not (unix_perm m == 493) then bit_or (bit_and m 0xfffffe00) 420 else m

unfoldable pub entry_at : HashKind → Bytes → Bytes → IndexEntry
unfolding normal_mode
entry_at k d path = record {
  ctime_secs = uint32 d;
  ctime_nsecs = uint32 (drop 4 d);
  mtime_secs = uint32 (drop 8 d);
  mtime_nsecs = uint32 (drop 12 d);
  dev = uint32 (drop 16 d);
  ino = uint32 (drop 20 d);
  mode = normal_mode (uint32 (drop 24 d));
  uid = uint32 (drop 28 d);
  gid = uint32 (drop 32 d);
  file_size = uint32 (drop 36 d);
  oid = hash_from_bytes k (take (byte_len k) (drop 40 d));
  flags = uint16 (drop (40 + byte_len k) d);
  path = path;
}

-- One entry of the data that is left, and what is left behind its padding.
unfoldable pub read_entry : HashKind → Bytes → Result (IndexEntry × Bytes)
unfolding entry_at padding
read_entry k d = if ltb (length d) (40 + byte_len k + 2) then err truncated_index_entry else (do
  let after = drop (40 + byte_len k + 2) d
  null ← or_err (index_byte after 0) unterminated_index_path
  let size = 40 + byte_len k + 2 + null + 1
  ok (entry_at k d (take null after), drop (size + padding size) d))

unfoldable pub read_entries : HashKind → ℕ → Bytes → Index → Result Index
unfolding read_entry
read_entries k zero d idx = ok idx
read_entries k (suc n) d idx = do
  (e, rest) ← read_entry k d
  idx' ← add_entry idx e
  read_entries k n rest idx'

-- No file is an empty index; other errors of the file system are not modelled. What follows the entries, as the checksum, is not read.
unfoldable pub read_index : HashKind → Option Bytes → Result Index
unfolding read_entries empty_index
read_index k none = ok empty_index
read_index k (some d) =
    if ltb (length d) 12
    then err index_too_short
    else if not (bytes_eq (take 4 d) (codes "DIRC"))
    then err invalid_index_signature
    else if not (uint32 (drop 4 d) == 2)
    then err unsupported_index_version
    else read_entries k (uint32 (drop 8 d)) (drop 12 d) empty_index

-- The entry as it is written.
unfoldable pub fixed_part : IndexEntry → Bytes
fixed_part e =
    put_uint32 e.ctime_secs
    ++ (put_uint32 e.ctime_nsecs
        ++ (put_uint32 e.mtime_secs
            ++ (put_uint32 e.mtime_nsecs
                ++ (put_uint32 e.dev
                    ++ (put_uint32 e.ino
                        ++ (put_uint32 e.mode
                            ++ (put_uint32 e.uid
                                ++ (put_uint32 e.gid ++ put_uint32 e.file_size))))))))

unfoldable pub unpadded : IndexEntry → Bytes
unfolding fixed_part
unpadded e = fixed_part e ++ (bytes e.oid ++ (put_uint16 e.flags ++ (e.path ++ (0 ∷ []))))

unfoldable pub write_entry : IndexEntry → Bytes
unfolding unpadded padding
write_entry e = unpadded e ++ replicate (padding (length (unpadded e))) 0

-- `sortedEntry`: by the path of the map and then by the stage.
pub record SortedEntry : Type 0 where
  pub path : Bytes
  pub stage : ℕ
  pub entry : IndexEntry

entry_less : SortedEntry → SortedEntry → Bool
entry_less a b = if bytes_eq a.path b.path then ltb a.stage b.stage else bytes_less a.path b.path

insert_entry : SortedEntry → List SortedEntry → List SortedEntry
unfolding entry_less
insert_entry e [] = e ∷ []
insert_entry e (f ∷ fs) =
    let rest = insert_entry e fs in if entry_less f e then f ∷ rest else e ∷ f ∷ fs

sort_entries : List SortedEntry → List SortedEntry
unfolding insert_entry
sort_entries [] = []
sort_entries (e ∷ es) = insert_entry e (sort_entries es)

stage_entry : Bytes → ℕ → Option IndexEntry → List SortedEntry
stage_entry p n none = []
stage_entry p n (some e) = record { path = p; stage = n; entry = e } ∷ []

collect : List (Bytes × Stages) → List SortedEntry
unfolding stage_entry
collect [] = []
collect ((p, s) ∷ rest) =
    stage_entry p 0 s.stage0
    ++ (stage_entry p 1 s.stage1
        ++ (stage_entry p 2 s.stage2 ++ (stage_entry p 3 s.stage3 ++ collect rest)))

unfoldable pub sorted_entries : Index → List SortedEntry
unfolding sort_entries collect
sorted_entries idx = sort_entries (collect idx.entries)

unfoldable pub write_entries : List SortedEntry → Bytes
unfolding write_entry
write_entries [] = []
write_entries (e ∷ es) = write_entry e.entry ++ write_entries es

-- The bytes that `Write` puts into the file; the checksum is a SHA-1 also if the objects' hash is not.
module _ (sum : HashKind → Bytes → Bytes) where
  unfoldable pub write_index : Index → Bytes
  unfolding write_entries sorted_entries
  write_index idx =
      let es = sorted_entries idx in
      let body = codes "DIRC" ++ (put_uint32 2 ++ (put_uint32 (length es) ++ write_entries es)) in
      body ++ bytes (hash_from_bytes sha1_hash_kind (sum sha1_hash_kind body))
