-- ===== src/Number.antt =====
-- `strconv.ParseUint` and the verbs %d, %x and %04x of `fmt` on unsigned integers, from Go's
-- standard library: the code prints and reads sizes, modes and packet lengths with them.
pub mod RoundTrip
pub mod Hex4
use go_repo_dojo.Base.{
  ℕ, zero, suc, ◌+◌, ◌-◌, ◌*◌, ◌/◌, ◌%◌, ◌^◌, Bool, true, false, ◌&&◌, ◌||◌, Option, none, some, [],
  ◌∷◌, ◌++◌, ltb, leb, ◌==◌, if◌then◌else◌, Bytes, length, replicate,
}
use go_repo_dojo.Hex.{hex_char}

-- Each round takes one digit, so `n` rounds are more than enough.
digits_onto : ℕ → ℕ → ℕ → Bytes → Bytes
digits_onto base zero n out = out
digits_onto base (suc fuel) n out = elim (n == 0) [
  | true ↦ out
  | false ↦ digits_onto base fuel (n / base) (hex_char (n % base) ∷ out)
]

unfoldable pub format_uint : ℕ → ℕ → Bytes
unfolding digits_onto
format_uint base n = if n == 0 then b'0' ∷ [] else digits_onto base n n []

-- %04x
unfoldable pub format_hex4 : ℕ → Bytes
unfolding format_uint
format_hex4 n = let s = format_uint 16 n in replicate (4 - length s) b'0' ++ s

digit_value : ℕ → Option ℕ
digit_value c =
    if leb b'0' c && leb c b'9'
    then some (c - b'0')
    else if leb b'a' c && leb c b'z'
    then some (c - b'a' + 10)
    else if leb b'A' c && leb c b'Z'
    then some (c - b'A' + 10)
    else none

-- One round of the loop of `ParseUint`, on the value so far (`none` once it has failed) and the
-- value of the next character; `max` is the largest value that the type allows.
scan_digit : ℕ → ℕ → Option ℕ → Option ℕ → Option ℕ
scan_digit base max (some n) (some d) =
    let n1 = (n * base % 2 ^ 64 + d) % 2 ^ 64 in
    if leb base d
    then none
    else if leb ((2 ^ 64 - 1) / base + 1) n
    then none
    else if ltb n1 (n * base % 2 ^ 64) || ltb max n1
    then none
    else some n1
scan_digit base max _ _ = none

scan : ℕ → ℕ → Bytes → Option ℕ → Option ℕ
scan base max [] v = v
scan base max (c ∷ s) v = scan base max s (scan_digit base max v (digit_value c))

-- `none` stands for both ErrSyntax and ErrRange.
unfoldable pub parse_uint : ℕ → ℕ → Bytes → Option ℕ
unfolding scan scan_digit digit_value
parse_uint base bits [] = none
parse_uint base bits (c ∷ s) = scan base (2 ^ bits - 1) (c ∷ s) (some 0)
