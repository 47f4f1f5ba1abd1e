-- ===== src/Ref/Content.antt =====
-- What `writeRef` puts into the file of a ref is understood when it is read.
use go_repo_dojo.Base.{
  ℕ, ◌/◌, ◌%◌, ◌<◌, ◌≡◌, refl, none, some, [], ◌∷◌, true, false, arith, Bytes, All, length,
}
use go_repo_dojo.Hex.{hex_char, encode_to_string}
use go_repo_dojo.Hex.RoundTrip.{IsByte}
use go_repo_dojo.Hash.{HashKind, Hash, hex, bytes, byte_len}
use go_repo_dojo.Hash.Laws.{HasKind, HasKind-bytes, HasKind-length, hash_from_hex-hex}
use go_repo_dojo.Text.{has_prefix}
use go_repo_dojo.Ref.{
  db_content, RefOrOid, ref_value, oid_value, ref_start_str, is_hex_char, all_hex, is_hex_string,
  ref_or_oid_from_db,
}
use go_repo_dojo.Ref.Paths.{IsNamed, ref_from_path-to_path}

abbrev pub IsStorable : HashKind → RefOrOid → Type 0
IsStorable k (ref_value r) = IsNamed r
IsStorable k (oid_value h) = HasKind k h

is_hex_char-hex_char : (d : ℕ) → d < 16 → (is_hex_char (hex_char d) ≡ true) × (hex_char d < b'r')
unfolding is_hex_char hex_char
is_hex_char-hex_char d h = ground arith

all_hex-encode_to_string : (bs : Bytes) → All IsByte bs → all_hex (encode_to_string bs) ≡ true
unfolding all_hex encode_to_string
all_hex-encode_to_string [] h = refl
all_hex-encode_to_string (b ∷ bs) (hb, hbs) = ground (
  arith,
  is_hex_char-hex_char (b / 16) (omega arith),
  is_hex_char-hex_char (b % 16) (omega arith),
  all_hex-encode_to_string bs hbs,
)

-- A nonempty hexadecimal text passes the test, and does not begin with the "r" of "ref: ".
hex_text :
    (bs : Bytes)
    → All IsByte bs
    → 0 < length bs
    → (is_hex_string (encode_to_string bs) ≡ true)
      × (has_prefix (encode_to_string bs) ref_start_str ≡ false)
unfolding is_hex_string encode_to_string has_prefix
hex_text [] h p = absurd (omega arith)
hex_text (b ∷ bs) (hb, hbs) p =
    let c = is_hex_char-hex_char (b / 16) (omega arith) in
    ground (arith, all_hex-encode_to_string (b ∷ bs) (hb, hbs), c.1)

byte_len-pos : (k : HashKind) → 0 < byte_len k
unfolding byte_len
byte_len-pos HashKind.sha1_hash_kind = omega arith
byte_len-pos HashKind.sha256_hash_kind = omega arith

hex_name :
    (k : HashKind) (o : Hash)
    → HasKind k o
    → (is_hex_string (hex o) ≡ true) × (has_prefix (hex o) ref_start_str ≡ false)
unfolding hex
hex_name k o h =
    hex_text (bytes o) (HasKind-bytes k o h) (omega (arith, HasKind-length k o h, byte_len-pos k))

-- A symbolic ref to a named ref, and a hash of the repository's kind, are read back from their text.
pub ref_or_oid_from_db-db_content :
    (k : HashKind) (v : RefOrOid) → IsStorable k v → ref_or_oid_from_db (db_content v) k ≡ some v
unfolding ref_or_oid_from_db db_content
ref_or_oid_from_db-db_content k (ref_value r) h = rw (ref_from_path-to_path r none h) refl
ref_or_oid_from_db-db_content k (oid_value o) h =
    let t = hex_name k o h in
    let (len, read) = hash_from_hex-hex k o h in ground (arith, t.0, t.1, len, read)
