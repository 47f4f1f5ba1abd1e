-- ===== src/Ref.antt =====
-- ref.go and branch.go: names of refs, their paths, and what the file of a ref holds.
pub mod Paths
pub mod Content
use go_repo_dojo.Base.{
  ℕ, ◌+◌, Bool, true, false, not, ◌&&◌, ◌||◌, Option, none, some, List, [], ◌∷◌, ◌++◌, ◌==◌, ltb,
  leb, if◌then◌else◌, Bytes, codes, bytes_eq, length, take, drop, Result, ok, err,
}
use go_repo_dojo.Hash.{HashKind, Hash, hex, hex_len, hash_from_hex}
use go_repo_dojo.Text.{split, join, contains, has_prefix, has_suffix}

-- `for _, c := range name` walks runes; a byte of a longer rune is none of the bytes refused here.
refused : ℕ → Bool
refused c =
    leb c 0x1f
    || c == 0x7f
    || c == b' '
    || c == b'~'
    || c == b'^'
    || c == b':'
    || c == b'?'
    || c == b'*'
    || c == b'['
    || c == b'\\'

any_refused : Bytes → Bool
any_refused [] = false
any_refused (c ∷ s) = refused c || any_refused s

-- `len(part) == 0 || part[0] == '.' || strings.HasSuffix(part, ".lock")`
bad_part : Bytes → Bool
bad_part [] = true
bad_part (c ∷ s) = c == b'.' || has_suffix (c ∷ s) (codes ".lock")

any_bad_part : List Bytes → Bool
any_bad_part [] = false
any_bad_part (p ∷ ps) = bad_part p || any_bad_part ps

last_is : ℕ → Bytes → Bool
last_is b [] = false
last_is b (c ∷ []) = c == b
last_is b (c ∷ d ∷ s) = last_is b (d ∷ s)

unfoldable pub validate_ref_name : Bytes → Bool
unfolding any_refused refused any_bad_part bad_part last_is split contains has_suffix
validate_ref_name [] = false
validate_ref_name (c ∷ s) =
    let name = c ∷ s in
    if ltb 255 (length name)
    then false
    else if c == b'-' || last_is b'.' name
    then false
    else if contains name (codes "..") || contains name (codes "@{")
    then false
    else if any_refused name
    then false
    else not (any_bad_part (split name b'/'))

unfoldable pub validate_branch_name : Bytes → Bool
unfolding validate_ref_name bytes_eq
validate_branch_name name = validate_ref_name name && not (bytes_eq name (codes "HEAD"))

pub data RefKind : Type 0 where
  ref_none ref_head ref_tag ref_remote ref_other : RefKind

-- `remote_name` is used only by the kind `ref_remote`; elsewhere it is the empty string.
pub record Ref : Type 0 where
  pub kind : RefKind
  pub name : Bytes
  pub remote_name : Bytes

abbrev pub plain : RefKind → Bytes → Ref
plain k n = record { kind = k; name = n; remote_name = [] }

abbrev pub refs_slash : Bytes
refs_slash = codes "refs/"

path_of : RefKind → Bytes → Bytes → Bytes
path_of ref_none name remote = name
path_of ref_head name remote = codes "refs/heads/" ++ name
path_of ref_tag name remote = codes "refs/tags/" ++ name
path_of ref_remote name remote = codes "refs/remotes/" ++ (remote ++ (b'/' ∷ name))
path_of ref_other name remote = refs_slash ++ name

unfoldable pub to_path : Ref → Bytes
unfolding path_of
to_path r = path_of r.kind r.name r.remote_name

-- A path with no "refs" in front: HEAD and its kin, or a name of the caller's default kind.
unqualified : Bytes → List Bytes → Option RefKind → Option Ref
unqualified path parts default_kind =
    let special =
      bytes_eq path (codes "HEAD")
      || bytes_eq path (codes "MERGE_HEAD")
      || bytes_eq path (codes "CHERRY_PICK_HEAD") in
    if length parts == 1 && special
    then some (plain ref_none path)
    else elim default_kind [ none ↦ none | some k ↦ some (plain k path) ]

remote_ref : Bytes → List Bytes → Option Ref
remote_ref remote [] = none
remote_ref remote (q ∷ qs) =
    some (record { kind = ref_remote; name = join (q ∷ qs) b'/'; remote_name = remote })

-- `switch refKindStr`, with `parts[2:]` split into its first part and the rest.
qualified : Bytes → Bytes → List Bytes → Option Ref
qualified kind_str p ps =
    if bytes_eq kind_str (codes "heads")
    then some (plain ref_head (join (p ∷ ps) b'/'))
    else if bytes_eq kind_str (codes "tags")
    then some (plain ref_tag (join (p ∷ ps) b'/'))
    else if bytes_eq kind_str (codes "remotes")
    then remote_ref p ps
    else some (plain ref_other (join (p ∷ ps) b'/'))

from_parts : Bytes → List Bytes → Option RefKind → Option Ref
from_parts path [] default_kind = none
from_parts path (first ∷ []) default_kind =
    if bytes_eq first (codes "refs") then none else unqualified path (first ∷ []) default_kind
from_parts path (first ∷ second ∷ []) default_kind =
    if bytes_eq first (codes "refs")
    then none
    else unqualified path (first ∷ second ∷ []) default_kind
from_parts path (first ∷ second ∷ p ∷ ps) default_kind =
    if bytes_eq first (codes "refs")
    then qualified second p ps
    else unqualified path (first ∷ second ∷ p ∷ ps) default_kind

-- Splitting gives one part at least, so the first clause of `from_parts` is never reached.
unfoldable pub ref_from_path : Bytes → Option RefKind → Option Ref
unfolding from_parts qualified remote_ref unqualified bytes_eq split join
ref_from_path path default_kind = from_parts path (split path b'/') default_kind

pub data RefOrOid : Type 0 where
  ref_value : Ref → RefOrOid
  oid_value : Hash → RefOrOid

abbrev pub ref_start_str : Bytes
ref_start_str = codes "ref: "

is_hex_char : ℕ → Bool
is_hex_char c = leb b'0' c && leb c b'9' || leb b'a' c && leb c b'f' || leb b'A' c && leb c b'F'

all_hex : Bytes → Bool
all_hex [] = true
all_hex (c ∷ s) = is_hex_char c && all_hex s

unfoldable pub is_hex_string : Bytes → Bool
unfolding all_hex is_hex_char
is_hex_string [] = false
is_hex_string (c ∷ s) = all_hex (c ∷ s)

-- A nil pointer or an error of the called function becomes a nil `RefOrOid`.
as_ref : Option Ref → Option RefOrOid
as_ref none = none
as_ref (some r) = some (ref_value r)

as_oid : Result Hash → Option RefOrOid
as_oid (ok h) = some (oid_value h)
as_oid (err e) = none

unfoldable pub ref_or_oid_from_db : Bytes → HashKind → Option RefOrOid
unfolding as_ref as_oid has_prefix is_hex_string
ref_or_oid_from_db content k =
    if has_prefix content ref_start_str
    then as_ref (ref_from_path (drop 5 content) none)
    else if length content == hex_len k && is_hex_string content
    then as_oid (hash_from_hex k content)
    else none

-- The text of a value, as `writeRef` forms it before the newline.
unfoldable pub db_content : RefOrOid → Bytes
db_content (ref_value r) = ref_start_str ++ to_path r
db_content (oid_value h) = hex h
