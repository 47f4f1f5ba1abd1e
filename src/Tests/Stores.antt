-- ===== src/Tests/Stores.antt =====
-- The object store and the refs at concrete inputs.
use go_repo_dojo.Base.{
  ℕ, zero, suc, ◌+◌, ◌≡◌, ◌≢◌, refl, none, some, Option, [], ◌∷◌, ◌++◌, inl, inr, true, arith,
  Bytes, bytes_eq, bytes_eq_iff, Bool-cases, ap, ◌∙◌, length-append, codes, length, replicate, ok,
  err, drop, take, stuck, map_get, map_set, map_delete, Result, List,
}
use mathlib.Core.Bool.{false≢true}
use go_repo_dojo.Hash.{Hash, HashKind, sha1_hash_kind, sha1_hash, hex, hash_from_bytes}
use go_repo_dojo.Object.{
  ObjectHeader, object_kind_blob, object_kind_tag, parse_object_header, header_str, name,
}
use go_repo_dojo.Object.Header.{parse_object_header-header_str}
use go_repo_dojo.Number.{format_uint}
use go_repo_dojo.Store.{MemoryObjectStore, write_object, read_object}
use go_repo_dojo.Store.ReadBack.{read_object-write_object}
use go_repo_dojo.Ref.{
  Ref, ref_head, plain, to_path, ref_value, oid_value, ref_from_path, ref_or_oid_from_db,
}
use go_repo_dojo.Refs.{
  Repo, read_ref, write_ref, update_head, read_head_recur_maybe, read_ref_recur,
}
use go_repo_dojo.Refs.Update.{
  read_ref-write_ref, Ends, stop, hop, read_head_recur_maybe-update_head, read_ref_recur_cycle,
}

abbrev blob_header : ObjectHeader
blob_header = record { kind = object_kind_blob; size = 3 }

parse_object_header-header_str_example :
    (parse_object_header (header_str blob_header ++ codes "abc")
      ≡ ok (blob_header, length (header_str blob_header)))
    × (drop (length (header_str blob_header)) (header_str blob_header ++ codes "abc") ≡ codes "abc")
parse_object_header-header_str_example =
    parse_object_header-header_str blob_header (codes "abc") (omega arith)

-- A stand-in for the digest: the length of what was hashed, filled up.
abbrev toy_sum : HashKind → Bytes → Bytes
toy_sum k s = length s ∷ replicate 19 7

abbrev other : Hash
other = sha1_hash (replicate 20 9)

abbrev empty_store : MemoryObjectStore
empty_store = record { objects = []; hash = sha1_hash_kind }

names_differ : hex (write_object toy_sum empty_store blob_header (codes "abc")).1 ≢ hex other
unfolding write_object hex hash_from_bytes header_str go_repo_dojo.Object.name format_uint
    go_repo_dojo.Hex.hex_char bytes_eq
names_differ = λ e. false≢true ((bytes_eq_iff _ _).1 e)

read_object-write_object_example :
    (read_object
        (write_object toy_sum empty_store blob_header (codes "abc")).0
        (write_object toy_sum empty_store blob_header (codes "abc")).1
      ≡ ok (record { header = blob_header; content = codes "abc"; pos = 0 }))
    × (read_object (write_object toy_sum empty_store blob_header (codes "abc")).0 other
        ≡ read_object empty_store other)
read_object-write_object_example =
    read_object-write_object toy_sum empty_store blob_header (codes "abc") other (omega arith)
      names_differ

abbrev master : Ref
master = plain ref_head (codes "master")

abbrev head_path : Bytes
head_path = codes "HEAD"

-- A repository as `InitRepo` leaves it: HEAD names a branch with no commit.
abbrev fresh : Repo
fresh = record { files = (head_path, codes "ref: refs/heads/master\n") ∷ []; hash = sha1_hash_kind }

abbrev commit : Hash
commit = sha1_hash (replicate 20 0x5c)

head_is_symbolic : read_ref fresh head_path ≡ ok (some (ref_value master))
unfolding read_ref map_get ref_or_oid_from_db ref_from_path bytes_eq go_repo_dojo.Text.trim_right
head_is_symbolic = refl

master_is_missing : read_ref fresh (to_path master) ≡ err go_repo_dojo.Base.ref_not_found
unfolding read_ref map_get bytes_eq to_path
master_is_missing = refl

fresh_locks : (path : Bytes) → map_get (path ++ codes ".lock") fresh.files ≡ none
unfolding map_get
fresh_locks path = elim (Bool-cases (bytes_eq head_path (path ++ codes ".lock"))) [
  | inl e ↦ absurd (
      omega (
        arith,
        ap length ((bytes_eq_iff head_path (path ++ codes ".lock")).0 e),
        length-append path (codes ".lock"),
      ))
  | inr e ↦ rw e
]

read_ref-write_ref_example :
    read_ref (write_ref fresh (to_path master) (oid_value commit)) (to_path master)
    ≡ ok (some (oid_value commit))
read_ref-write_ref_example =
    read_ref-write_ref fresh (to_path master) (oid_value commit) (omega arith)

head_chain : Ends fresh (to_path master) 1 head_path
head_chain = hop master head_is_symbolic (stop refl (λ r e. cc (master_is_missing, e)))

read_head_recur_maybe-update_head_example :
    (update_head 2 fresh commit ≡ ok (write_ref fresh (to_path master) (oid_value commit)))
    × (read_head_recur_maybe 1 (write_ref fresh (to_path master) (oid_value commit))
        ≡ ok (some commit))
read_head_recur_maybe-update_head_example =
    read_head_recur_maybe-update_head fresh (to_path master) commit 1 (omega arith) fresh_locks
      (inl master_is_missing) head_chain

-- A branch that names itself.
abbrev looping : Repo
looping = record {
  files = (codes "refs/heads/master", codes "ref: refs/heads/master\n") ∷ [];
  hash = sha1_hash_kind;
}

loops : read_ref looping (to_path master) ≡ ok (some (ref_value master))
unfolding read_ref map_get ref_or_oid_from_db ref_from_path bytes_eq go_repo_dojo.Text.trim_right
    to_path
loops = refl

read_ref_recur_cycle_example : read_ref_recur 1000 looping (ref_value master) ≡ err stuck
read_ref_recur_cycle_example =
    read_ref_recur_cycle looping (λ r. r ≡ master)
      (λ r e. (master, refl, ap (λ (x : Ref). read_ref looping (to_path x)) e ∙ loops)) 1000 master
      refl
