-- ===== src/Tree.antt =====
-- Tree objects: the file modes of fs.go, the tree builder and the tree parser of object.go. The builder's
-- entries are sorted by their keys; `sort.Slice` may order entries with one key in either way, and the
-- entries of a directory have different keys.
pub mod Sorting
pub mod RoundTrip
use go_repo_dojo.Base.{
  ℕ, zero, suc, ◌+◌, ◌*◌, ◌/◌, ◌^◌, bit_and, Bool, true, false, ◌&&◌, ◌||◌, Option, none, some,
  List, [], ◌∷◌, ◌++◌, ◌==◌, ltb, if◌then◌else◌, Bytes, codes, length, take, drop, Result, ok, err,
  or_err, ◌>>=◌, no_space, no_null, truncated_oid, invalid_mode, stuck,
}
use go_repo_dojo.Number.{parse_uint}
use go_repo_dojo.Text.{index_byte}
use go_repo_dojo.Hash.{HashKind, byte_len, Hash, bytes, hash_from_bytes}

-- `ObjType` and `UnixPerm` of a uint32.
unfoldable pub obj_type : ℕ → ℕ
obj_type m = bit_and (m / 2 ^ 12) 0xf

unfoldable pub unix_perm : ℕ → ℕ
unix_perm m = bit_and m 0x1ff

-- `Mode.String`: 0o04, 0o10, 0o12 and 0o16 are 4, 8, 10 and 14, and 0o755 is 493.
unfoldable pub mode_string : ℕ → Bytes
mode_string m =
    if obj_type m == 4
    then codes "40000"
    else if obj_type m == 8
    then (if unix_perm m == 493 then codes "100755" else codes "100644")
    else if obj_type m == 10
    then codes "120000"
    else if obj_type m == 14
    then codes "160000"
    else codes "100644"

pub record TreeBuilderEntry : Type 0 where
  pub sort_key : Bytes
  pub data_bytes : Bytes

-- One entry: the mode, the name and the bytes of the hash.
unfoldable pub entry_data : Bytes → Bytes → Hash → Bytes
entry_data mode name oid = mode ++ (b' ' ∷ (name ++ (0 ∷ bytes oid)))

unfoldable pub add_blob_entry : List TreeBuilderEntry → ℕ → Bytes → Hash → List TreeBuilderEntry
add_blob_entry entries mode name oid =
    entries
    ++ (record { sort_key = name; data_bytes = entry_data (mode_string mode) name oid } ∷ [])

unfoldable pub add_tree_entry : List TreeBuilderEntry → Bytes → Hash → List TreeBuilderEntry
add_tree_entry entries name oid =
    entries
    ++ (record { sort_key = name ++ (b'/' ∷ []); data_bytes = entry_data (codes "40000") name oid }
        ∷ [])

-- `a < b` on Go strings.
unfoldable pub bytes_less : Bytes → Bytes → Bool
bytes_less [] [] = false
bytes_less [] (y ∷ b) = true
bytes_less (x ∷ a) [] = false
bytes_less (x ∷ a) (y ∷ b) = ltb x y || (x == y && bytes_less a b)

module _ {ℓ} {A : Type ℓ} (key : A → Bytes) where
  insert_by : A → List A → List A
  insert_by e [] = e ∷ []
  insert_by e (f ∷ es) =
      let rest = insert_by e es in if bytes_less (key f) (key e) then f ∷ rest else e ∷ f ∷ es

  unfoldable pub sort_by : List A → List A
  unfolding insert_by
  sort_by [] = []
  sort_by (e ∷ es) = insert_by e (sort_by es)

concat_data : List TreeBuilderEntry → Bytes
concat_data [] = []
concat_data (e ∷ es) = e.data_bytes ++ concat_data es

-- The content that `writeTree` hands to the store.
unfoldable pub tree_content : List TreeBuilderEntry → Bytes
unfolding concat_data
tree_content entries = concat_data (sort_by (λ (e : TreeBuilderEntry). e.sort_key) entries)

pub record TreeContentEntry : Type 0 where
  pub name : Bytes
  pub mode : ℕ
  pub oid : Hash

-- One round of the loop of `parseTree`: an entry and what follows it.
parse_entry : HashKind → Bytes → Result (TreeContentEntry × Bytes)
parse_entry k s = do
  sp ← or_err (index_byte s b' ') no_space
  let mode_str = take sp s
  let after_mode = drop (sp + 1) s
  null ← or_err (index_byte after_mode 0) no_null
  let name = take null after_mode
  let after_name = drop (null + 1) after_mode
  if ltb (length after_name) (byte_len k) then err truncated_oid else (do
    mode ← or_err (parse_uint 8 32 mode_str) invalid_mode
    ok (
      record { name = name; mode = mode; oid = hash_from_bytes k (take (byte_len k) after_name) },
      drop (byte_len k) after_name,
    ))

parse_entries : ℕ → HashKind → Bytes → Result (List TreeContentEntry)
unfolding parse_entry
parse_entries fuel k [] = ok []
parse_entries zero k (c ∷ s) = err stuck
parse_entries (suc fuel) k (c ∷ s) = do
  (entry, rest) ← parse_entry k (c ∷ s)
  entries ← parse_entries fuel k rest
  ok (entry ∷ entries)

-- Every round takes a byte at least, so there are no more rounds than bytes.
unfoldable pub parse_tree : HashKind → Bytes → Result (List TreeContentEntry)
unfolding parse_entries
parse_tree k data' = parse_entries (length data') k data'
