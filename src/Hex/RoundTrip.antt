-- ===== src/Hex/RoundTrip.antt =====
-- Decoding undoes encoding.
use go_repo_dojo.Base.{
  ◌≢◌, ℕ, ◌*◌, ◌/◌, ◌%◌, ◌<◌, ◌≡◌, refl, [], ◌∷◌, arith, Bytes, All, length, ok, >>=-eq-ok,
}
use go_repo_dojo.Hex.{hex_char, encode_to_string, from_hex_char, decode_string}

abbrev pub IsByte : ℕ → Type 0
IsByte b = b < 256

pub from_hex_char-hex_char : (d : ℕ) → d < 16 → from_hex_char (hex_char d) ≡ ok d
unfolding from_hex_char hex_char
from_hex_char-hex_char d h = ground arith

pub decode_string-encode_to_string :
    (bs : Bytes) → All IsByte bs → decode_string (encode_to_string bs) ≡ ok bs
unfolding decode_string encode_to_string
decode_string-encode_to_string [] h = refl
decode_string-encode_to_string (b ∷ bs) (hb, hbs) = ground (
  arith,
  from_hex_char-hex_char (b / 16),
  from_hex_char-hex_char (b % 16),
  decode_string-encode_to_string bs hbs,
)

pub length-encode_to_string : (bs : Bytes) → length (encode_to_string bs) ≡ 2 * length bs
unfolding encode_to_string
length-encode_to_string [] = refl
length-encode_to_string (b ∷ bs) = omega (arith, length-encode_to_string bs)

pub from_hex_char-lt : (c d : ℕ) → from_hex_char c ≡ ok d → d < 16
unfolding from_hex_char
from_hex_char-lt c d h = ground arith

-- What is decoded is half as long as its text, and made of bytes.
pub decode_string_shape :
    (s : Bytes) {bs : Bytes} → decode_string s ≡ ok bs → (length s ≡ 2 * length bs) × All IsByte bs
unfolding decode_string
decode_string_shape [] h = ground arith
decode_string_shape (p ∷ []) h = ground arith
decode_string_shape (p ∷ q ∷ s) {bs} h =
    let (a, ha, h1) = >>=-eq-ok (from_hex_char p) _ h in
    let (b, hb, h2) = >>=-eq-ok (from_hex_char q) _ h1 in
    let (rest, hr, h3) = >>=-eq-ok (decode_string s) _ h2 in
    ground (arith, from_hex_char-lt p a ha, from_hex_char-lt q b hb, decode_string_shape s hr)

hex_char-ne : (c d : ℕ) → c < b'0' → d < 16 → hex_char d ≢ c
unfolding hex_char
hex_char-ne c d hc h = ground arith

-- No byte below the digits stands in a hexadecimal text.
pub encode_to_string-Lacks :
    (c : ℕ) (bs : Bytes) → c < b'0' → All IsByte bs → All (λ x. x ≢ c) (encode_to_string bs)
unfolding encode_to_string
encode_to_string-Lacks c [] hc h = tt
encode_to_string-Lacks c (b ∷ bs) hc (hb, hbs) = (
  hex_char-ne c (b / 16) hc (omega arith),
  (hex_char-ne c (b % 16) hc (omega arith), encode_to_string-Lacks c bs hc hbs),
)
