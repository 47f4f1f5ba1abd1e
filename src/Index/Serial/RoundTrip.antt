-- ===== src/Index/Serial/RoundTrip.antt =====
-- An index that was written is read back, entry by entry.
use go_repo_dojo.Base.{
  ◌⊎◌, inl, inr, ℕ, ◌+◌, ◌*◌, ◌/◌, ◌%◌, ◌^◌, ◌<◌, ◌≡◌, refl, sym, ap, ◌∙◌, false, some, List, [],
  ◌∷◌, ◌++◌, append_assoc, ltb, Bytes, bytes_eq, codes, length, length-append, take,
  take-length_append, drop, drop-drop, drop-length_append, replicate, length-replicate, All, Result,
  ok, ◌>>=◌, arith,
}
use go_repo_dojo.Binary.{uint16, uint32, put_uint16, put_uint32}
use go_repo_dojo.Hash.{HashKind, sha1_hash_kind, byte_len, bytes, hash_from_bytes}
use go_repo_dojo.Text.{index_byte}
use go_repo_dojo.Text.Laws.{Lacks, index_byte-append}
use go_repo_dojo.Hash.Laws.{HasKind, hash_from_bytes-bytes, HasKind-length}
use go_repo_dojo.Tree.{obj_type, unix_perm}
use go_repo_dojo.Index.Serial.Sorted.{IsListing, sorted_entries-IsListing}
use go_repo_dojo.Index.{IndexEntry, Index, empty_index, add_entry}
use go_repo_dojo.Index.Serial.{
  padding, normal_mode, entry_at, read_entry, read_entries, read_index, fixed_part, unpadded,
  write_entry, SortedEntry, sorted_entries, write_entries, write_index,
}

-- The numbers fit their fields, the hash is of the repository's kind, and the path has no zero byte.
pub record HasFields (k : HashKind) (e : IndexEntry) : Type 0 where
  pub ctime_secs_fits : e.ctime_secs < 2 ^ 32
  pub ctime_nsecs_fits : e.ctime_nsecs < 2 ^ 32
  pub mtime_secs_fits : e.mtime_secs < 2 ^ 32
  pub mtime_nsecs_fits : e.mtime_nsecs < 2 ^ 32
  pub dev_fits : e.dev < 2 ^ 32
  pub ino_fits : e.ino < 2 ^ 32
  pub mode_fits : e.mode < 2 ^ 32
  pub uid_fits : e.uid < 2 ^ 32
  pub gid_fits : e.gid < 2 ^ 32
  pub file_size_fits : e.file_size < 2 ^ 32
  pub oid_kind : HasKind k e.oid
  pub flags_fit : e.flags < 2 ^ 16
  pub path_lacks : Lacks 0 e.path

word : (n : ℕ) (r : Bytes) → n < 2 ^ 32 → uint32 (put_uint32 n ++ r) ≡ n
unfolding uint32 put_uint32
word n r h = omega arith

half : (n : ℕ) (r : Bytes) → n < 2 ^ 16 → uint16 (put_uint16 n ++ r) ≡ n
unfolding uint16 put_uint16
half n r h = omega arith

abbrev normal : IndexEntry → IndexEntry
normal e = record e { mode = normal_mode e.mode }

-- The entry by its fields.
entry_at-fields :
    (k : HashKind) (d r : Bytes) (e : IndexEntry)
    → uint32 d ≡ e.ctime_secs
    → uint32 (drop 4 d) ≡ e.ctime_nsecs
    → uint32 (drop 8 d) ≡ e.mtime_secs
    → uint32 (drop 12 d) ≡ e.mtime_nsecs
    → uint32 (drop 16 d) ≡ e.dev
    → uint32 (drop 20 d) ≡ e.ino
    → uint32 (drop 24 d) ≡ e.mode
    → uint32 (drop 28 d) ≡ e.uid
    → uint32 (drop 32 d) ≡ e.gid
    → uint32 (drop 36 d) ≡ e.file_size
    → hash_from_bytes k (take (byte_len k) (drop 40 d)) ≡ e.oid
    → uint16 (drop (40 + byte_len k) d) ≡ e.flags
    → entry_at k d e.path ≡ normal e
unfolding entry_at
entry_at-fields k d r e h0 h1 h2 h3 h4 h5 h6 h7 h8 h9 h10 h11 =
    rw (h0, h1, h2, h3, h4, h5, h6, h7, h8, h9, h10, h11) refl

rest_part : IndexEntry → Bytes → Bytes
rest_part e r = bytes e.oid ++ (put_uint16 e.flags ++ (e.path ++ (0 ∷ r)))

entry_at-fixed_part :
    (k : HashKind) (e : IndexEntry) (r : Bytes)
    → HasFields k e
    → entry_at k (fixed_part e ++ rest_part e r) e.path ≡ normal e
unfolding fixed_part put_uint32 rest_part
entry_at-fixed_part k e r h =
    let rest = rest_part e r in
    let len = HasKind-length k e.oid h.oid_kind in
    let d = fixed_part e ++ rest in
    let behind : drop (40 + byte_len k) d ≡ put_uint16 e.flags ++ (e.path ++ (0 ∷ r)) =
      sym (drop-drop 40 (byte_len k) (40 + byte_len k) d refl)
      ∙ drop-length_append (bytes e.oid) (put_uint16 e.flags ++ (e.path ++ (0 ∷ r))) (byte_len k)
          (sym len) in
    entry_at-fields k d rest e (word e.ctime_secs _ h.ctime_secs_fits)
      (word e.ctime_nsecs _ h.ctime_nsecs_fits) (word e.mtime_secs _ h.mtime_secs_fits)
      (word e.mtime_nsecs _ h.mtime_nsecs_fits) (word e.dev _ h.dev_fits) (word e.ino _ h.ino_fits)
      (word e.mode _ h.mode_fits) (word e.uid _ h.uid_fits) (word e.gid _ h.gid_fits)
      (word e.file_size _ h.file_size_fits)
      (ap (hash_from_bytes k) (
          take-length_append (bytes e.oid) (put_uint16 e.flags ++ (e.path ++ (0 ∷ r))) (byte_len k)
            (sym len))
        ∙ hash_from_bytes-bytes k e.oid h.oid_kind)
      (ap uint16 behind ∙ half e.flags (e.path ++ (0 ∷ r)) h.flags_fit)

length-fixed_part : (e : IndexEntry) → length (fixed_part e) ≡ 40
unfolding fixed_part put_uint32
length-fixed_part e = refl

length-flags : (n : ℕ) → length (put_uint16 n) ≡ 2
unfolding put_uint16
length-flags n = refl

regroup :
    (f o g p z r : Bytes)
    → ((f ++ (o ++ (g ++ (p ++ (0 ∷ []))))) ++ z) ++ r ≡ f ++ (o ++ (g ++ (p ++ (0 ∷ (z ++ r)))))
regroup f o g p z r = simp (append_assoc)

length-unpadded :
    (k : HashKind) (e : IndexEntry)
    → HasFields k e
    → length (unpadded e) ≡ 40 + byte_len k + 2 + length e.path + 1
unfolding unpadded
length-unpadded k e h = omega (
  arith,
  length-fixed_part e,
  length-flags e.flags,
  HasKind-length k e.oid h.oid_kind,
  length-append (fixed_part e) (bytes e.oid ++ (put_uint16 e.flags ++ (e.path ++ (0 ∷ [])))),
  length-append (bytes e.oid) (put_uint16 e.flags ++ (e.path ++ (0 ∷ []))),
  length-append (put_uint16 e.flags) (e.path ++ (0 ∷ [])),
  length-append e.path (0 ∷ []),
)

pad : IndexEntry → Bytes
pad e = replicate (padding (length (unpadded e))) 0

written :
    (e : IndexEntry) (r : Bytes) → write_entry e ++ r ≡ fixed_part e ++ rest_part e (pad e ++ r)
unfolding write_entry unpadded rest_part pad
written e r = regroup (fixed_part e) (bytes e.oid) (put_uint16 e.flags) e.path (pad e) r

-- The path stands behind the fixed fields.
at_path :
    (k : HashKind) (e : IndexEntry) (r : Bytes)
    → HasFields k e
    → drop (40 + byte_len k + 2) (fixed_part e ++ rest_part e r) ≡ e.path ++ (0 ∷ r)
unfolding rest_part
at_path k e r h =
    let d = fixed_part e ++ rest_part e r in
    let path = e.path ++ (0 ∷ r) in
    let behind = put_uint16 e.flags ++ path in
    sym (drop-drop 40 (byte_len k + 2) (40 + byte_len k + 2) d (omega arith))
    ∙ ap (drop (byte_len k + 2))
        (drop-length_append (fixed_part e) (rest_part e r) 40 (sym (length-fixed_part e)))
    ∙ sym (drop-drop (byte_len k) 2 (byte_len k + 2) (bytes e.oid ++ behind) refl)
    ∙ ap (drop 2) (
        drop-length_append (bytes e.oid) behind (byte_len k)
          (sym (HasKind-length k e.oid h.oid_kind)))
    ∙ drop-length_append (put_uint16 e.flags) path 2 (sym (length-flags e.flags))

-- The next entry stands behind the padding.
at_next :
    (k : HashKind) (e : IndexEntry) (r : Bytes)
    → HasFields k e
    → drop
        (40
          + byte_len k
          + 2
          + length e.path
          + 1
          + padding (40 + byte_len k + 2 + length e.path + 1))
        (write_entry e ++ r)
      ≡ r
unfolding write_entry pad
at_next k e r h =
    let size = 40 + byte_len k + 2 + length e.path + 1 in
    let len = length-unpadded k e h in
    drop-length_append (write_entry e) r (size + padding size) (
      sym (
        length-append (unpadded e) (pad e)
        ∙ ap (λ (n : ℕ). length (unpadded e) + n)
            (length-replicate (padding (length (unpadded e))) 0)
        ∙ ap (λ (n : ℕ). n + padding n) len))

read_entry-fields :
    (k : HashKind) (d : Bytes) (n : ℕ)
    → ltb (length d) (40 + byte_len k + 2) ≡ false
    → index_byte (drop (40 + byte_len k + 2) d) 0 ≡ some n
    → read_entry k d
      ≡ ok (
        entry_at k d (take n (drop (40 + byte_len k + 2) d)),
        drop (40 + byte_len k + 2 + n + 1 + padding (40 + byte_len k + 2 + n + 1)) d,
      )
unfolding read_entry
read_entry-fields k d n long at = rw (long, at) refl

long_enough :
    (k : HashKind) (e : IndexEntry) (r : Bytes)
    → HasFields k e
    → ltb (length (write_entry e ++ r)) (40 + byte_len k + 2) ≡ false
unfolding write_entry pad
long_enough k e r h = ground (
  arith,
  length-append (write_entry e) r,
  length-append (unpadded e) (pad e),
  length-unpadded k e h,
)

-- An entry whose fields fit, with its padding, is read back, and what follows it is left. Only the mode
-- may change, to the normal one.
pub read_entry-write_entry :
    (k : HashKind) (e : IndexEntry) (r : Bytes)
    → HasFields k e
    → read_entry k (write_entry e ++ r) ≡ ok (normal e, r)
read_entry-write_entry k e r h =
    let d = write_entry e ++ r in
    let tail = 0 ∷ (pad e ++ r) in
    let path_there : drop (40 + byte_len k + 2) d ≡ e.path ++ tail =
      ap (drop (40 + byte_len k + 2)) (written e r) ∙ at_path k e (pad e ++ r) h in
    let null_there : index_byte (drop (40 + byte_len k + 2) d) 0 ≡ some (length e.path) =
      ap (λ (t : Bytes). index_byte t 0) path_there
      ∙ index_byte-append e.path (pad e ++ r) 0 h.path_lacks in
    let path_read : take (length e.path) (drop (40 + byte_len k + 2) d) ≡ e.path =
      ap (take (length e.path)) path_there ∙ take-length_append e.path tail (length e.path) refl in
    let entry_read : entry_at k d (take (length e.path) (drop (40 + byte_len k + 2) d)) ≡ normal e =
      ap (entry_at k d) path_read
      ∙ ap (λ (t : Bytes). entry_at k t e.path) (written e r)
      ∙ entry_at-fixed_part k e (pad e ++ r) h in
    read_entry-fields k d (length e.path) (long_enough k e r h) null_there
    ∙ ap
        (λ (x : IndexEntry). ok (
          x,
          drop
              (40
                + byte_len k
                + 2
                + length e.path
                + 1
                + padding (40 + byte_len k + 2 + length e.path + 1))
              d,
        ))
        entry_read
    ∙ ap (λ (t : Bytes). ok (normal e, t)) (at_next k e r h)

-- The entries of a list, one after the other.
unfoldable pub add_all : List SortedEntry → Index → Result Index
add_all [] idx = ok idx
add_all (e ∷ es) idx = add_entry idx (normal e.entry) >>= add_all es

read_entries-write_entries :
    (k : HashKind) (es : List SortedEntry) (r : Bytes) (idx : Index)
    → All (λ (e : SortedEntry). HasFields k e.entry) es
    → read_entries k (length es) (write_entries es ++ r) idx ≡ add_all es idx
unfolding read_entries write_entries add_all
read_entries-write_entries k [] r idx h = refl
read_entries-write_entries k (e ∷ es) r idx (he, h) =
    rw
      (
        append_assoc (write_entry e.entry) (write_entries es) r,
        read_entry-write_entry k e.entry (write_entries es ++ r) he,
      )
      (ap (λ (f : Index → Result Index). add_entry idx (normal e.entry) >>= f)
        (λ i x. read_entries-write_entries k es r x h i))

header : ℕ → Bytes → Bytes
header n r = codes "DIRC" ++ (put_uint32 2 ++ (put_uint32 n ++ r))

read_header :
    (k : HashKind) (n : ℕ) (r : Bytes)
    → n < 2 ^ 32
    → read_index k (some (header n r)) ≡ read_entries k n r empty_index
unfolding header read_index put_uint32 bytes_eq uint32
read_header k n r h =
    let count : n / 2 ^ 24 % 256 * 2 ^ 24
          + n / 2 ^ 16 % 256 * 2 ^ 16
          + n / 2 ^ 8 % 256 * 2 ^ 8
          + n % 256
        ≡ n =
      omega arith in
    let long : ltb (length (header n r)) 12 ≡ false = ground arith in rw (long, count) refl

append_header : (n : ℕ) (a b : Bytes) → header n a ++ b ≡ header n (a ++ b)
unfolding header put_uint32
append_header n a b = refl

-- A tree's mode, a file's, a program's, a symbolic link's or a submodule's.
abbrev pub IsMode : ℕ → Type 0
IsMode m = (m ≡ 0x4000) ⊎ ((m ≡ 0x81a4) ⊎ ((m ≡ 0x81ed) ⊎ ((m ≡ 0xa000) ⊎ (m ≡ 0xe000))))

normal-IsMode : (e : IndexEntry) → IsMode e.mode → normal e ≡ e
unfolding normal_mode obj_type unix_perm
normal-IsMode e h = ap (λ (m : ℕ). record e { mode = m }) (same h)
  where
    same : IsMode e.mode → normal_mode e.mode ≡ e.mode
    same (inl q) = rw q refl
    same (inr (inl q)) = rw q refl
    same (inr (inr (inl q))) = rw q refl
    same (inr (inr (inr (inl q)))) = rw q refl
    same (inr (inr (inr (inr q)))) = rw q refl

-- The entries of a list go into an index, one after the other.
unfoldable pub put_all : List SortedEntry → Index → Result Index
put_all [] idx = ok idx
put_all (e ∷ es) idx = add_entry idx e.entry >>= put_all es

add_all-put_all :
    (es : List SortedEntry) (idx : Index)
    → All (λ (e : SortedEntry). IsMode e.entry.mode) es
    → add_all es idx ≡ put_all es idx
unfolding add_all put_all
add_all-put_all [] idx h = refl
add_all-put_all (e ∷ es) idx (he, h) = rw (normal-IsMode e.entry he) (
    ap (λ (f : Index → Result Index). add_entry idx e.entry >>= f)
      (λ i x. add_all-put_all es x h i))

read_index-add_all :
    (sum : HashKind → Bytes → Bytes) (k : HashKind) (idx : Index)
    → All (λ (e : SortedEntry). HasFields k e.entry) (sorted_entries idx)
    → length (sorted_entries idx) < 2 ^ 32
    → read_index k (some (write_index sum idx)) ≡ add_all (sorted_entries idx) empty_index
unfolding write_index header
read_index-add_all sum k idx h fits =
    let es = sorted_entries idx in
    let n = length es in
    let body = header n (write_entries es) in
    let check = bytes (hash_from_bytes sha1_hash_kind (sum sha1_hash_kind body)) in
    ap (λ (d : Bytes). read_index k (some d)) (append_header n (write_entries es) check)
    ∙ read_header k n (write_entries es ++ check) fits
    ∙ read_entries-write_entries k es check empty_index h

-- If the entries' numbers fit their fields, their modes are git's, their hashes are of the repository's
-- kind, none has a path with a zero byte, and there are fewer than 2 ^ 32 of them, then reading the file
-- that `Write` makes, with any checksum, is putting the entries of a list into the empty index as they
-- are. The list has exactly the entries that the index holds, of every path and every stage, by their
-- paths and, for one path, by their stages.
pub read_index-write_index :
    (sum : HashKind → Bytes → Bytes) (k : HashKind) (idx : Index)
    → All (λ (e : SortedEntry). HasFields k e.entry) (sorted_entries idx)
    → All (λ (e : SortedEntry). IsMode e.entry.mode) (sorted_entries idx)
    → length (sorted_entries idx) < 2 ^ 32
    → (es : List SortedEntry) × IsListing idx.entries es
      × (read_index k (some (write_index sum idx)) ≡ put_all es empty_index)
read_index-write_index sum k idx h modes fits = (
  sorted_entries idx,
  sorted_entries-IsListing idx,
  read_index-add_all sum k idx h fits ∙ add_all-put_all (sorted_entries idx) empty_index modes,
)
