-- ===== src/PackIndex.antt =====
-- pack.go: the search for an object in the index files of the packs. A file is the list of its bytes.
-- Every read of the tables begins with a seek, so the position in the file is no state.
pub mod Search
pub mod Fanout
pub mod Layout
pub mod Found
use go_repo_dojo.Base.{
  ℕ, zero, suc, ◌+◌, ◌-◌, ◌*◌, ◌/◌, bit_and, Bool, true, false, ◌&&◌, not, Option, none, some, List,
  [], ◌∷◌, ◌++◌, ◌==◌, ltb, if◌then◌else◌, Bytes, bytes_eq, codes, length, take, drop, get_elem?,
  Result, ok, err, ◌>>=◌, object_not_found, unsupported_pack_index, stuck,
}
use go_repo_dojo.Binary.{uint32, uint64}
use go_repo_dojo.Hash.{HashKind, byte_len, hex_len}
use go_repo_dojo.Hex.{decode_string}
use go_repo_dojo.Pkt.{read_full}
use go_repo_dojo.Text.{has_prefix, has_suffix}
use go_repo_dojo.Tree.{bytes_less}

-- `f.Seek` and then `io.ReadFull`.
unfoldable pub read_at : ℕ → ℕ → Bytes → Result Bytes
unfolding read_full
read_at pos n file = do (b, rest) ← read_full n (drop pos file); ok b

unfoldable pub read_oid_at_index : Bytes → ℕ → ℕ → ℕ → Result Bytes
unfolding read_at
read_oid_at_index file oid_list_pos index len = read_at (oid_list_pos + index * len) len file

-- The fanout table.
unfoldable pub read_fanout : ℕ → Bytes → Result (List ℕ × Bytes)
read_fanout zero r = ok ([], r)
read_fanout (suc n) r = do
  (b, r') ← read_full 4 r
  (fanout, r'') ← read_fanout n r'
  ok (uint32 b ∷ fanout, r'')

-- `fanout[i]`, below 256.
unfoldable pub fanout_at : List ℕ → ℕ → ℕ
fanout_at fanout i = elim (get_elem? fanout i) [ none ↦ 0 | some n ↦ n ]

-- The binary search, over the name at an index: the index that was found, and `right`. A round at
-- least halves what is left, so fuel for every index is enough.
module _ (oid_at : ℕ → Result Bytes) (oid_bytes : Bytes) where
  unfoldable pub search_loop : ℕ → ℕ → ℕ → Result (Option ℕ × ℕ)
  search_loop zero left right = if ltb left right then err stuck else ok (none, right)
  search_loop (suc fuel) left right =
      let mid = left + (right - left) / 2 in
      let lower = search_loop fuel left mid in
      let upper = search_loop fuel (mid + 1) right in
      if ltb left right
      then (do
        mid_oid ← oid_at mid
        (if bytes_eq oid_bytes mid_oid
            then ok (some mid, right)
            else if bytes_less oid_bytes mid_oid
            then (if mid == 0 then ok (none, right) else lower)
            else upper))
      else ok (none, right)

  -- The check of the right boundary, if nothing was found.
  unfoldable pub check_right : ℕ → Option ℕ × ℕ → Result (Option ℕ)
  check_right entry_count (some i, right) = ok (some i)
  check_right entry_count (none, right) =
      if ltb right entry_count
      then (do
        right_oid ← oid_at right
        ok (if bytes_eq oid_bytes right_oid then some right else none))
      else ok none

-- The offset of an entry, which for a large one stands in a table of its own.
unfoldable pub read_offset_at : Bytes → ℕ → ℕ → ℕ → Result ℕ
unfolding read_at
read_offset_at file offset_list_pos entry_count i = do
  b ← read_at (offset_list_pos + i * 4) 4 file
  let raw = uint32 b
  (if bit_and raw 0x80000000 == 0 then ok raw else (do
    b' ← read_at (offset_list_pos + entry_count * 4 + bit_and raw 0x7fffffff * 8) 8 file
    ok (uint64 b')))

offset_found : Bytes → ℕ → ℕ → Option ℕ → Result (Option ℕ)
unfolding read_offset_at
offset_found file offset_list_pos entry_count none = ok none
offset_found file offset_list_pos entry_count (some i) = do
  offset ← read_offset_at file offset_list_pos entry_count i
  ok (some offset)

-- The search in the tables behind the fanout table. An empty name, on which Go panics, is `stuck`.
search_tables : HashKind → Bytes → List ℕ → Bytes → Result (Option ℕ)
unfolding search_loop check_right offset_found fanout_at read_oid_at_index
search_tables k file fanout [] = err stuck
search_tables k file fanout (first ∷ oid) = do
  let entry_count = fanout_at fanout 255
  let oid_at = λ (i : ℕ). read_oid_at_index file 1032 i (byte_len k)
  let left = if ltb 0 first then fanout_at fanout (first - 1) else 0
  let right = fanout_at fanout first
  p ← search_loop oid_at (first ∷ oid) (right - left) left right
  found ← check_right oid_at (first ∷ oid) entry_count p
  offset_found file (1032 + entry_count * byte_len k + entry_count * 4) entry_count found

unfoldable pub search_pack_index : HashKind → Bytes → Bytes → Result (Option ℕ)
unfolding search_tables read_fanout
search_pack_index k file oid_bytes = do
  (header, r) ← read_full 4 file
  (if bytes_eq header (255 ∷ 116 ∷ 79 ∷ 99 ∷ [])
      then (do
        (version, r') ← read_full 4 r
        (if uint32 version == 2
            then (do (fanout, r'') ← read_fanout 256 r'; search_tables k file fanout oid_bytes)
            else err unsupported_pack_index))
      else err unsupported_pack_index)

-- A directory entry: its name, whether it is a regular file, and what opening it gives.
pub record DirEntry : Type 0 where
  pub name : Bytes
  pub is_regular : Bool
  pub content : Result Bytes

-- The identifier of the pack that an index file's name tells.
pack_id_of : HashKind → DirEntry → Option Bytes
pack_id_of k e =
    let id = take (length e.name - 9) (drop 5 e.name) in
    if e.is_regular
      && has_prefix e.name (codes "pack-")
      && has_suffix e.name (codes ".idx")
      && length id == hex_len k
    then some id
    else none

-- An index that cannot be searched is passed over.
search_entry : HashKind → Bytes → DirEntry → Option (ℕ × Bytes)
unfolding search_pack_index pack_id_of
search_entry k oid e = elim (pack_id_of k e) [
  | none ↦ none
  | some id ↦ (elim (e.content >>= (λ file. search_pack_index k file oid)) [
    | ok (some offset) ↦ some (offset, id)
    | ok none ↦ none
    | err _ ↦ none
  ])
]

search_entries : HashKind → Bytes → List DirEntry → Result (ℕ × Bytes)
unfolding search_entry
search_entries k oid [] = err object_not_found
search_entries k oid (e ∷ es) =
    let rest = search_entries k oid es in
    elim (search_entry k oid e) [ none ↦ rest | some found ↦ ok found ]

unfoldable pub search_pack_indexes : HashKind → List DirEntry → Bytes → Result (ℕ × Bytes)
unfolding search_entries
search_pack_indexes k entries oid_hex = do oid ← decode_string oid_hex; search_entries k oid entries
