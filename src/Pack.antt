-- ===== src/Pack.antt =====
-- pack.go: the header of an object in a pack, read by `initPackObjectReaderAtPosition` and written by
-- `writeObjectHeader`. A reader is the list of bytes from its position on.
pub mod EntryHeader
pub mod Offset
use go_repo_dojo.Base.{
  ℕ, zero, suc, ◌+◌, ◌-◌, ◌*◌, ◌/◌, ◌%◌, ◌^◌, bit_and, bit_or, Bool, true, false, ◌&&◌, not, List,
  [], ◌∷◌, ◌++◌, ◌==◌, ltb, leb, if◌then◌else◌, Bytes, codes, bytes_eq, length, take, drop, Result,
  ok, err, ◌>>=◌, eof, unexpected_eof, unknown_pack_kind, invalid_pack_sig, invalid_pack_version,
}
use go_repo_dojo.Hash.{Hash, sha1_hash_kind, hash_from_bytes}
use go_repo_dojo.Object.{
  ObjectKind, object_kind_blob, object_kind_tree, object_kind_commit, object_kind_tag,
}
use go_repo_dojo.Pkt.{read_full}

-- `packObjectKind` is a byte; these are its named values.
abbrev pub pack_commit : ℕ
pack_commit = 1

abbrev pub pack_tree : ℕ
pack_tree = 2

abbrev pub pack_blob : ℕ
pack_blob = 3

abbrev pub pack_tag : ℕ
pack_tag = 4

abbrev pub pack_ofs_delta : ℕ
pack_ofs_delta = 6

abbrev pub pack_ref_delta : ℕ
pack_ref_delta = 7

unfoldable pub pack_object_kind_to_object_kind : ℕ → ObjectKind
pack_object_kind_to_object_kind k =
    if k == pack_commit
    then object_kind_commit
    else if k == pack_tree
    then object_kind_tree
    else if k == pack_blob
    then object_kind_blob
    else if k == pack_tag
    then object_kind_tag
    else object_kind_blob

unfoldable pub object_kind_to_pack_object_kind : ObjectKind → ℕ
object_kind_to_pack_object_kind object_kind_commit = pack_commit
object_kind_to_pack_object_kind object_kind_tree = pack_tree
object_kind_to_pack_object_kind object_kind_blob = pack_blob
object_kind_to_pack_object_kind object_kind_tag = pack_tag

-- `for extra { … }`: a shift by 64 or more gives 0.
unfoldable pub size_loop : Bytes → ℕ → ℕ → Result (ℕ × Bytes)
size_loop [] size shift = err eof
size_loop (b ∷ rest) size shift =
    let size' = bit_or size (bit_and b 0x7f * 2 ^ shift % 2 ^ 64) in
    let more = size_loop rest size' (shift + 7) in
    if bit_and b 0x80 == 0 then ok (size', rest) else more

-- The kind, the size and what follows them: `[extra:1][kind:3][size_low:4]`, then seven bits a byte.
unfoldable pub read_kind_and_size : Bytes → Result (ℕ × ℕ × Bytes)
unfolding size_loop
read_kind_and_size [] = err eof
read_kind_and_size (first_byte ∷ rest) =
    let kind = bit_and (first_byte / 16) 0x07 in
    let size = bit_and first_byte 0x0f in
    if bit_and first_byte 0x80 == 0
    then ok (kind, size, rest)
    else (do (size', rest') ← size_loop rest size 4; ok (kind, size', rest'))

-- The "offset encoding": big-endian groups, with one added between two of them.
offset_loop : Bytes → ℕ → Result (ℕ × Bytes)
offset_loop [] offset = err eof
offset_loop (b ∷ rest) offset =
    let offset' = bit_or (offset * 128 % 2 ^ 64) (bit_and b 0x7f) in
    let more = offset_loop rest ((offset' + 1) % 2 ^ 64) in
    if bit_and b 0x80 == 0 then ok (offset', rest) else more

unfoldable pub read_offset : Bytes → Result (ℕ × Bytes)
unfolding offset_loop
read_offset r = offset_loop r 0

-- What stands in front of the compressed data of an object. A delta names its base by a position in
-- the pack or by a hash.
pub data Entry : Type 0 where
  basic : ObjectKind → Entry
  ofs_delta : ℕ → Entry
  ref_delta : Hash → Entry

-- `switch kind`. `position - offset` is computed in uint64. The base's hash is always a SHA-1.
pub entry_of : ℕ → ℕ → Bytes → Result (Entry × Bytes)
entry_of position kind r =
    if leb 1 kind && leb kind 4
    then ok (basic (pack_object_kind_to_object_kind kind), r)
    else if kind == pack_ofs_delta
    then (do
      (offset, r') ← read_offset r
      ok (ofs_delta ((position + 2 ^ 64 - offset) % 2 ^ 64), r'))
    else if kind == pack_ref_delta
    then (do (oid, r') ← read_full 20 r; ok (ref_delta (hash_from_bytes sha1_hash_kind oid), r'))
    else err unknown_pack_kind

-- The entry at a position of a pack, the size of its data, and the compressed bytes behind.
unfoldable pub init_pack_object_reader_at_position : Bytes → ℕ → Result (Entry × ℕ × Bytes)
unfolding entry_of read_kind_and_size
init_pack_object_reader_at_position pack position = do
  (kind, size, r) ← read_kind_and_size (drop position pack)
  (entry, r') ← entry_of position kind r
  ok (entry, size, r')

-- `for rem > 0 { … }`: each round writes seven bits, so `rem` rounds are more than enough.
unfoldable pub size_bytes : ℕ → ℕ → Bytes
size_bytes zero rem = []
size_bytes (suc fuel) rem =
    let val = bit_and rem 0x7f in
    let rem' = rem / 128 in
    let more = size_bytes fuel rem' in
    if rem == 0 then [] else (if ltb 0 rem' then bit_or val 0x80 else val) ∷ more

-- What `writeObjectHeader` puts into the buffer for an object.
unfoldable pub write_object_header : ObjectKind → ℕ → Bytes
unfolding size_bytes
write_object_header k size =
    let low_bits = bit_and size 0x0f in
    let high_bits = size / 16 in
    let extra_bit = if ltb 0 high_bits then 0x80 else 0 in
    bit_or (bit_or extra_bit (object_kind_to_pack_object_kind k * 16 % 256)) low_bits
    ∷ size_bytes high_bits high_bits
