-- ===== src/Store.antt =====
-- object_memory.go: the object store in memory and its readers. The hash function is the parameter
-- `sum`: sha1 or sha256 of the crypto packages over the whole of what was written to the hasher.
pub mod ReadBack
pub mod Reader
use go_repo_dojo.Base.{
  ℕ, ◌+◌, ◌-◌, ◌%◌, ◌^◌, Bool, true, false, Option, none, some, List, [], ◌∷◌, ◌++◌, ◌==◌, leb, ltb,
  if◌then◌else◌, Bytes, length, take, drop, min, Result, ok, err, ◌>>=◌, object_not_found, eof,
  map_get, map_set,
}
use go_repo_dojo.Hash.{HashKind, Hash, hash_from_bytes, hex}
use go_repo_dojo.Object.{ObjectHeader, parse_object_header, header_str}

pub record MemoryObjectStore : Type 0 where
  pub objects : List (Bytes × Bytes)
  pub hash : HashKind

unfoldable pub new_memory_object_store : HashKind → MemoryObjectStore
new_memory_object_store k = record { objects = []; hash = k }

pub record MemoryObjectReader : Type 0 where
  pub header : ObjectHeader
  pub content : Bytes
  pub pos : ℕ

module _ (sum : HashKind → Bytes → Bytes) where
  -- The reader's content is copied behind the header; reading from memory does not fail.
  unfoldable pub write_object : MemoryObjectStore → ObjectHeader → Bytes → MemoryObjectStore × Hash
  write_object s h content =
      let written = header_str h ++ content in
      let oid = hash_from_bytes s.hash (sum s.hash written) in
      (record s { objects = map_set (hex oid) written s.objects }, oid)

reader_of : Bytes → ObjectHeader × ℕ → MemoryObjectReader
reader_of stored (h, content_start) = record {
  header = h;
  content = drop content_start stored;
  pos = 0;
}

unfoldable pub open_stored : Option Bytes → Result MemoryObjectReader
unfolding reader_of
open_stored none = err object_not_found
open_stored (some stored) = do p ← parse_object_header stored; ok (reader_of stored p)

unfoldable pub read_object : MemoryObjectStore → Hash → Result MemoryObjectReader
unfolding open_stored reader_of
read_object s oid = open_stored (map_get (hex oid) s.objects)

unfoldable pub reset : MemoryObjectReader → MemoryObjectReader
reset r = record r { pos = 0 }

-- A read into a buffer of `n` bytes: what it holds afterwards and the reader.
unfoldable pub read : ℕ → MemoryObjectReader → Result (Bytes × MemoryObjectReader)
read n r =
    let p = take n (drop r.pos r.content) in
    if leb (length r.content) r.pos
    then err eof
    else ok (p, record r { pos = (r.pos + length p) % 2 ^ 64 })

unfoldable pub skip_bytes : ℕ → MemoryObjectReader → MemoryObjectReader
skip_bytes n r =
    let pos = (r.pos + n) % 2 ^ 64 in
    record r { pos = if ltb (length r.content) pos then length r.content else pos }

unfoldable pub position : MemoryObjectReader → ℕ
position r = r.pos
