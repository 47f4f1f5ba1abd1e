-- ===== src/Refs.antt =====
-- ref.go: refs in the repository's directory. The directory is a map from paths to file contents;
-- paths are taken as they come from `ToPath`, with no directory in the place of a file, and the
-- operating system's other errors are left out.
pub mod Update
use go_repo_dojo.Base.{
  ℕ, zero, suc, ◌+◌, Bool, true, false, ◌&&◌, ◌||◌, Option, none, some, List, [], ◌∷◌, ◌++◌, ◌==◌,
  if◌then◌else◌, Bytes, codes, bytes_eq, length, take, drop, Result, ok, err, ◌>>=◌, ref_not_found,
  stuck, head_has_no_valid_hash, Error, map_get, map_set, map_delete,
}
use go_repo_dojo.Hash.{HashKind, Hash, hex, hash_from_hex}
use go_repo_dojo.Text.{split, has_prefix, index_byte, trim_right, trim_left}
use go_repo_dojo.Ref.{
  db_content, Ref, ref_head, plain, to_path, RefOrOid, ref_value, oid_value, ref_start_str,
  is_hex_string, ref_or_oid_from_db, db_content,
}

abbrev pub Files : Type 0
Files = List (Bytes × Bytes)

pub record Repo : Type 0 where
  pub files : Files
  pub hash : HashKind

-- The cutset "\n\r", and the white space that `strings.TrimSpace` knows below 0x80.
abbrev newline_or_return : ℕ → Bool
newline_or_return c = c == b'\n' || c == b'\r'

abbrev is_space : ℕ → Bool
is_space c = c == b'\t' || c == b'\n' || c == 0x0b || c == 0x0c || c == b'\r' || c == b' '

-- One line of packed-refs; `none` goes on to the next. `SplitN(trimmed, " ", 2)` cuts at the first space.
packed_parts : Bytes → Bytes → HashKind → Option ℕ → Option (Result Hash)
packed_parts trimmed path k none = none
packed_parts trimmed path k (some i) =
    if is_hex_string (take i trimmed) && bytes_eq (drop (i + 1) trimmed) path
    then some (hash_from_hex k (take i trimmed))
    else none

packed_line : Bytes → Bytes → HashKind → Option (Result Hash)
packed_line line path k =
    let trimmed = trim_left is_space (trim_right is_space line) in
    if has_prefix trimmed (codes "#") || bytes_eq trimmed []
    then none
    else packed_parts trimmed path k (index_byte trimmed b' ')

packed_lookup : List Bytes → Bytes → HashKind → Result (Option RefOrOid)
packed_lookup [] path k = err ref_not_found
packed_lookup (line ∷ lines) path k = elim (packed_line line path k) [
  | none ↦ packed_lookup lines path k
  | some (ok h) ↦ ok (some (oid_value h))
  | some (err e) ↦ err e
]

read_packed : Option Bytes → Bytes → HashKind → Result (Option RefOrOid)
read_packed none path k = err ref_not_found
read_packed (some text) path k = packed_lookup (split text b'\n') path k

read_loose : Option Bytes → Repo → Bytes → Result (Option RefOrOid)
read_loose (some text) repo path =
    ok (ref_or_oid_from_db (trim_right newline_or_return text) repo.hash)
read_loose none repo path = read_packed (map_get (codes "packed-refs") repo.files) path repo.hash

-- A nil `RefOrOid` with a nil error is `ok none`.
unfoldable pub read_ref : Repo → Bytes → Result (Option RefOrOid)
unfolding read_loose read_packed packed_lookup packed_line packed_parts
read_ref repo path = read_loose (map_get path repo.files) repo path

-- `errors.Is(err, ErrRefNotFound)`
unfoldable pub not_found : Error → Bool
not_found ref_not_found = true
not_found _ = false

-- What `readRefRecur` does with the answer of `readRef`, where `next` is the recursive call.
after_read : Result (Option RefOrOid) → (RefOrOid → Result (Option Hash)) → Result (Option Hash)
after_read (ok none) next = ok none
after_read (ok (some v)) next = next v
after_read (err e) next = if not_found e then ok none else err e

-- The source recurs with no bound. Each call here follows one symbolic ref; `stuck` is no Go value and
-- says that the fuel ran out.
unfoldable pub read_ref_recur : ℕ → Repo → RefOrOid → Result (Option Hash)
unfolding after_read
read_ref_recur fuel repo (oid_value o) = ok (some o)
read_ref_recur zero repo (ref_value r) = err stuck
read_ref_recur (suc fuel) repo (ref_value r) =
    after_read (read_ref repo (to_path r)) (read_ref_recur fuel repo)

-- `ReadHeadRecurMaybe`
unfoldable pub read_head_recur_maybe : ℕ → Repo → Result (Option Hash)
unfolding after_read
read_head_recur_maybe fuel repo =
    after_read (read_ref repo (codes "HEAD")) (read_ref_recur fuel repo)

-- The lock file beside the ref is created or emptied, written, and renamed to the ref.
unfoldable pub write_ref : Repo → Bytes → RefOrOid → Repo
write_ref repo path v =
    let content = db_content v ++ (b'\n' ∷ []) in
    let lock_path = path ++ codes ".lock" in
    record repo { files = map_set path content (map_delete lock_path repo.files) }

-- What `writeRefRecur` does with the answer of `readRef`: it goes on to the next path, or writes here.
write_after : Result (Option RefOrOid) → (Bytes → Result Repo) → Repo → Result Repo
write_after (ok none) next here = ok here
write_after (ok (some (ref_value r))) next here = next (to_path r)
write_after (ok (some (oid_value h))) next here = ok here
write_after (err e) next here = if not_found e then ok here else err e

unfoldable pub write_ref_recur : ℕ → Repo → Bytes → Hash → Result Repo
unfolding write_after
write_ref_recur zero repo path oid = err stuck
write_ref_recur (suc fuel) repo path oid =
    write_after (read_ref repo path) (λ next. write_ref_recur fuel repo next oid)
      (write_ref repo path (oid_value oid))

unfoldable pub replace_head : Repo → RefOrOid → Repo
replace_head repo v = write_ref repo (codes "HEAD") v

unfoldable pub update_head : ℕ → Repo → Hash → Result Repo
update_head fuel repo oid = write_ref_recur fuel repo (codes "HEAD") oid

unfoldable pub ref_exists : Repo → Ref → Result Bool
ref_exists repo r = elim (read_ref repo (to_path r)) [
  | ok v ↦ ok true
  | err e ↦ if not_found e then ok false else err e
]

-- `ReadHeadRecur`
unfoldable pub read_head_recur : ℕ → Repo → Result Hash
read_head_recur fuel repo = elim (read_head_recur_maybe fuel repo) [
  | ok (some oid) ↦ ok oid
  | ok none ↦ err head_has_no_valid_hash
  | err e ↦ err e
]

-- `ReadRef`
unfoldable pub read_ref_hash : ℕ → Repo → Ref → Result (Option Hash)
read_ref_hash fuel repo r = elim (read_ref repo (to_path r)) [
  | ok (some v) ↦ read_ref_recur fuel repo v
  | ok none ↦ ok none
  | err e ↦ err e
]
