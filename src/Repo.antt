-- ===== src/Repo.antt =====
-- object.go: objects read from the store and parsed. The store is the interface `ObjectStore`, whose
-- two implementations look an object up by the hexadecimal name of its hash.
pub mod Renamed
use go_repo_dojo.Base.{
  ℕ, Bool, Option, none, some, List, Bytes, Result, ok, ◌>>=◌, if◌then◌else◌, map_get,
}
use go_repo_dojo.Hash.{HashKind, Hash, hex}
use go_repo_dojo.Object.{
  ObjectKind, object_kind_blob, object_kind_tree, object_kind_commit, object_kind_tag, ObjectHeader,
}
use go_repo_dojo.Store.{MemoryObjectStore, MemoryObjectReader, open_stored}
use go_repo_dojo.Tree.{TreeContentEntry, parse_tree}
use go_repo_dojo.Commit.{CommitContent, TagContent, parse_commit, parse_tag}

-- An open reader: its header, and what `io.ReadAll` makes of it.
pub record Opened : Type 0 where
  pub header : ObjectHeader
  pub content : Result Bytes

pub record Repo : Type 0 where
  pub hash : HashKind
  pub store : Bytes → Result Opened

pub record Object : Type 0 where
  pub oid : Hash
  pub kind : ObjectKind
  pub size : ℕ
  pub commit : Option CommitContent
  pub tree : Option (List TreeContentEntry)
  pub tag : Option TagContent

unfoldable pub parse_content : HashKind → ObjectKind → Result Bytes → Object → Result Object
parse_content k object_kind_blob content o = ok o
parse_content k object_kind_tree content o = do
  s ← content
  entries ← parse_tree k s
  ok (record o { tree = some entries })
parse_content k object_kind_commit content o = do
  s ← content
  ok (record o { commit = some (parse_commit k s) })
parse_content k object_kind_tag content o = do
  s ← content
  ok (record o { tag = some (parse_tag k s) })

-- The object of an open reader, parsed if it is wanted in full.
pub object_of : HashKind → Hash → Bool → Opened → Result Object
unfolding parse_content
object_of k oid full rdr =
    let obj : Object = record {
      oid = oid;
      kind = rdr.header.kind;
      size = rdr.header.size;
      commit = none;
      tree = none;
      tag = none;
    } in
    if full then parse_content k rdr.header.kind rdr.content obj else ok obj

unfoldable pub new_object : Repo → Hash → Bool → Result Object
unfolding object_of
new_object repo oid full = repo.store (hex oid) >>= object_of repo.hash oid full

opened_of : MemoryObjectReader → Opened
opened_of r = record { header = r.header; content = ok r.content }

-- The store in memory as the repository's.
unfoldable pub memory_repo : MemoryObjectStore → Repo
unfolding opened_of
memory_repo s = record {
  hash = s.hash;
  store = λ name. (do r ← open_stored (map_get name s.objects); ok (opened_of r));
}
