-- ===== src/Hex.antt =====
-- `encoding/hex` of Go's standard library, as far as hash.go and net_server_pkt.go use it.
pub mod RoundTrip
use go_repo_dojo.Base.{
  ℕ, ◌+◌, ◌-◌, ◌*◌, ◌/◌, ◌%◌, ◌&&◌, Option, none, some, [], ◌∷◌, leb, ltb, if◌then◌else◌, Bytes,
  Result, ok, err, ◌>>=◌, invalid_hex, odd_hex_length,
}

-- One place of the table "0123456789abcdef".
unfoldable pub hex_char : ℕ → ℕ
hex_char d = if ltb d 10 then b'0' + d else b'a' + (d - 10)

unfoldable pub encode_to_string : Bytes → Bytes
unfolding hex_char
encode_to_string [] = []
encode_to_string (b ∷ bs) = hex_char (b / 16) ∷ hex_char (b % 16) ∷ encode_to_string bs

-- The reverse table accepts both cases.
unfoldable pub from_hex_char : ℕ → Result ℕ
from_hex_char c =
    if leb b'0' c && leb c b'9'
    then ok (c - b'0')
    else if leb b'a' c && leb c b'f'
    then ok (c - b'a' + 10)
    else if leb b'A' c && leb c b'F'
    then ok (c - b'A' + 10)
    else err invalid_hex

-- A left-over character is checked for its own validity before the length is blamed.
unfoldable pub decode_string : Bytes → Result Bytes
unfolding from_hex_char
decode_string [] = ok []
decode_string (p ∷ []) = do a ← from_hex_char p; err odd_hex_length
decode_string (p ∷ q ∷ s) = do
  a ← from_hex_char p
  b ← from_hex_char q
  rest ← decode_string s
  ok ((a * 16 + b) ∷ rest)
