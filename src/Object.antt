-- ===== src/Object.antt =====
-- object.go: the kinds of objects and the header "kind size NUL" in front of a stored object.
pub mod Header
use go_repo_dojo.Base.{
  ℕ, zero, suc, ◌+◌, ◌-◌, Bool, true, false, Option, none, some, List, [], ◌∷◌, ◌++◌, ◌==◌,
  if◌then◌else◌, Bytes, codes, bytes_eq, length, take, drop, Result, or_err, ok, err, ◌>>=◌,
  invalid_object_kind, no_space, no_null, invalid_size, Error,
}
use go_repo_dojo.Text.{index_byte}
use go_repo_dojo.Number.{format_uint, parse_uint}

pub data ObjectKind : Type 0 where
  object_kind_blob object_kind_tree object_kind_commit object_kind_tag : ObjectKind

unfoldable pub name : ObjectKind → Bytes
name object_kind_blob = codes "blob"
name object_kind_tree = codes "tree"
name object_kind_commit = codes "commit"
name object_kind_tag = codes "tag"

unfoldable pub object_kind_from_name : Bytes → Result ObjectKind
unfolding bytes_eq
object_kind_from_name s =
    if bytes_eq s (codes "blob")
    then ok object_kind_blob
    else if bytes_eq s (codes "tree")
    then ok object_kind_tree
    else if bytes_eq s (codes "commit")
    then ok object_kind_commit
    else if bytes_eq s (codes "tag")
    then ok object_kind_tag
    else err invalid_object_kind

pub record ObjectHeader : Type 0 where
  pub kind : ObjectKind
  pub size : ℕ

-- The header and where the content starts.
unfoldable pub parse_object_header : Bytes → Result (ObjectHeader × ℕ)
unfolding index_byte
parse_object_header s = do
  space_idx ← or_err (index_byte s b' ') no_space
  kind ← object_kind_from_name (take space_idx s)
  null ← or_err (index_byte (drop (space_idx + 1) s) 0) no_null
  let null_idx = null + (space_idx + 1)
  size ← or_err (parse_uint 10 64 (take null (drop (space_idx + 1) s))) invalid_size
  ok (record { kind = kind; size = size }, null_idx + 1)

-- `fmt.Sprintf("%s %d\x00", header.Kind.Name(), header.Size)`, which both stores write first.
unfoldable pub header_str : ObjectHeader → Bytes
header_str h = name h.kind ++ (b' ' ∷ (format_uint 10 h.size ++ (0 ∷ [])))
