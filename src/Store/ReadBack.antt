-- ===== src/Store/ReadBack.antt =====
-- What was written is read back under its hash.
use go_repo_dojo.Base.{
  ◌≤◌, ◌-◌, ◌^◌, ◌≡◌, ◌≢◌, refl, false, some, ◌++◌, arith, Bytes, bytes_eq, bytes_eq_iff,
  bytes_eq_refl, ok, map_get-map_set,
}
use go_repo_dojo.Hash.{HashKind, Hash, hex}
use go_repo_dojo.Object.{ObjectHeader, header_str}
use go_repo_dojo.Object.Header.{parse_object_header-header_str}
use go_repo_dojo.Store.{MemoryObjectStore, write_object, read_object, open_stored, reader_of}

open_stored-header_str :
    (h : ObjectHeader) (content : Bytes)
    → h.size ≤ 2 ^ 64 - 1
    → open_stored (some (header_str h ++ content))
      ≡ ok (record { header = h; content = content; pos = 0 })
unfolding open_stored reader_of
open_stored-header_str h content fits =
    let (parsed, rest) = parse_object_header-header_str h content fits in rw (parsed, rest) refl

differ : (a b : Bytes) → a ≢ b → bytes_eq a b ≡ false
differ a b ne = ground (arith, bytes_eq_iff a b)

module _ (sum : HashKind → Bytes → Bytes) where
  -- `ReadObject` under the hash that `WriteObject` returned gives the header and the content that
  -- were written, at position 0, if the size is a uint64. Under any hash with another hexadecimal
  -- name it gives what it gave before.
  pub read_object-write_object :
      (s : MemoryObjectStore) (h : ObjectHeader) (content : Bytes) (oid : Hash)
      → h.size ≤ 2 ^ 64 - 1
      → hex (write_object sum s h content).1 ≢ hex oid
      → (read_object (write_object sum s h content).0 (write_object sum s h content).1
          ≡ ok (record { header = h; content = content; pos = 0 }))
        × (read_object (write_object sum s h content).0 oid ≡ read_object s oid)
  unfolding read_object write_object
  read_object-write_object s h content oid fits ne = (
    rw (map_get-map_set, bytes_eq_refl) (open_stored-header_str h content fits),
    rw (map_get-map_set, differ _ _ ne) refl,
  )
