-- ===== src/Hash.antt =====
-- hash.go: the two kinds of hash and their hexadecimal names.
pub mod Laws
use go_repo_dojo.Base.{
  ℕ, zero, suc, ◌*◌, Bool, true, false, ◌&&◌, Option, none, some, [], ◌∷◌, ◌==◌, Bytes, bytes_eq,
  length, replicate, Result, ok, ◌>>=◌,
}
use go_repo_dojo.Hex.{encode_to_string, decode_string}

pub data HashKind : Type 0 where
  sha1_hash_kind sha256_hash_kind : HashKind

unfoldable pub byte_len : HashKind → ℕ
byte_len sha1_hash_kind = 20
byte_len sha256_hash_kind = 32

unfoldable pub hex_len : HashKind → ℕ
unfolding byte_len
hex_len k = byte_len k * 2

-- The interface `Hash` with its two array types; a nil interface is `none` where it may occur.
pub data Hash : Type 0 where
  sha1_hash : Bytes → Hash
  sha256_hash : Bytes → Hash

unfoldable pub bytes : Hash → Bytes
bytes (sha1_hash o) = o
bytes (sha256_hash o) = o

unfoldable pub hex : Hash → Bytes
unfolding bytes encode_to_string
hex h = encode_to_string (bytes h)

all_zero : Bytes → Bool
all_zero [] = true
all_zero (b ∷ bs) = b == 0 && all_zero bs

unfoldable pub is_null : Hash → Bool
unfolding all_zero bytes
is_null h = all_zero (bytes h)

-- `copy(o[:], b)` into a fresh array of `n` zero bytes.
unfoldable pub copy_into : ℕ → Bytes → Bytes
copy_into zero b = []
copy_into (suc n) [] = 0 ∷ copy_into n []
copy_into (suc n) (x ∷ b) = x ∷ copy_into n b

unfoldable pub hash_from_bytes : HashKind → Bytes → Hash
unfolding copy_into
hash_from_bytes sha1_hash_kind b = sha1_hash (copy_into 20 b)
hash_from_bytes sha256_hash_kind b = sha256_hash (copy_into 32 b)

unfoldable pub hash_from_hex : HashKind → Bytes → Result Hash
unfolding hash_from_bytes decode_string
hash_from_hex k s = do b ← decode_string s; ok (hash_from_bytes k b)

unfoldable pub hash_equal : Option Hash → Option Hash → Bool
unfolding bytes bytes_eq
hash_equal none none = true
hash_equal none (some b) = false
hash_equal (some a) none = false
hash_equal (some a) (some b) = bytes_eq (bytes a) (bytes b)

unfoldable pub null_hash : HashKind → Hash
null_hash sha1_hash_kind = sha1_hash (replicate 20 0)
null_hash sha256_hash_kind = sha256_hash (replicate 32 0)
