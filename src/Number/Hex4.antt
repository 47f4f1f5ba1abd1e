-- ===== src/Number/Hex4.antt =====
-- %04x written out: four digits for a number that fits them, and more for a larger one.
use go_repo_dojo.Base.{
  ℕ, zero, suc, ◌-◌, ◌/◌, ◌%◌, ◌≤◌, ◌<◌, ◌≡◌, refl, ap, ◌∙◌, [], ◌∷◌, ◌++◌, arith, Bytes, length,
  take, replicate,
}
use go_repo_dojo.Hex.{hex_char}
use go_repo_dojo.Number.{digits_onto, format_uint, format_hex4}
use native.Mathlib.Decide.{dec_lt}

more :
    (base fuel n : ℕ) (out : Bytes)
    → 0 < n
    → n ≤ fuel
    → digits_onto base fuel n out
      ≡ digits_onto base (fuel - 1) (n / base) (hex_char (n % base) ∷ out)
unfolding digits_onto
more base zero n out p h = absurd (omega arith)
more base (suc fuel) n out p h = let e : suc fuel - 1 ≡ fuel = omega arith in rw e (ground arith)

none_left : (base fuel : ℕ) (out : Bytes) → digits_onto base fuel 0 out ≡ out
unfolding digits_onto
none_left base zero out = refl
none_left base (suc fuel) out = refl

one_digit :
    (fuel n : ℕ) (out : Bytes)
    → 0 < n
    → n < 16
    → n ≤ fuel
    → digits_onto 16 fuel n out ≡ hex_char n ∷ out
one_digit fuel n out p q h =
    let e : n / 16 ≡ 0 = omega arith in
    let d : n % 16 ≡ n = omega arith in more 16 fuel n out p h ∙ rw (e, d) (none_left 16 _ _)

two_digits :
    (fuel n : ℕ) (out : Bytes)
    → 16 ≤ n
    → n < 256
    → n ≤ fuel
    → digits_onto 16 fuel n out ≡ hex_char (n / 16) ∷ hex_char (n % 16) ∷ out
two_digits fuel n out p q h =
    more 16 fuel n out (omega arith) h
    ∙ one_digit _ (n / 16) _ (omega arith) (omega arith) (omega arith)

three_digits :
    (fuel n : ℕ) (out : Bytes)
    → 256 ≤ n
    → n < 4096
    → n ≤ fuel
    → digits_onto 16 fuel n out
      ≡ hex_char (n / 16 / 16) ∷ hex_char (n / 16 % 16) ∷ hex_char (n % 16) ∷ out
three_digits fuel n out p q h =
    more 16 fuel n out (omega arith) h
    ∙ two_digits _ (n / 16) _ (omega arith) (omega arith) (omega arith)

four_digits :
    (fuel n : ℕ) (out : Bytes)
    → 4096 ≤ n
    → n < 65536
    → n ≤ fuel
    → digits_onto 16 fuel n out
      ≡ hex_char (n / 16 / 16 / 16)
        ∷ hex_char (n / 16 / 16 % 16)
        ∷ hex_char (n / 16 % 16)
        ∷ hex_char (n % 16)
        ∷ out
four_digits fuel n out p q h =
    more 16 fuel n out (omega arith) h
    ∙ three_digits _ (n / 16) _ (omega arith) (omega arith) (omega arith)

-- The four hexadecimal digits of a number.
abbrev pub hex4 : ℕ → Bytes
hex4 n =
    hex_char (n / 16 / 16 / 16)
    ∷ hex_char (n / 16 / 16 % 16)
    ∷ hex_char (n / 16 % 16)
    ∷ hex_char (n % 16)
    ∷ []

format_uint-pos : (base n : ℕ) → 0 < n → format_uint base n ≡ digits_onto base n n []
unfolding format_uint
format_uint-pos base n p = ground arith

zero_char : hex_char 0 ≡ b'0'
unfolding hex_char
zero_char = refl

padded :
    (n : ℕ) (s : Bytes) → format_uint 16 n ≡ s → format_hex4 n ≡ replicate (4 - length s) b'0' ++ s
unfolding format_hex4
padded n s e = ap (λ (t : Bytes). replicate (4 - length t) b'0' ++ t) e

-- Digits that are the quotients of `n` are its four digits, the leading zeros printed as padding.
hex4_of_digits :
    (n a b c d : ℕ)
    → n / 16 / 16 / 16 ≡ a
    → n / 16 / 16 % 16 ≡ b
    → n / 16 % 16 ≡ c
    → n % 16 ≡ d
    → hex_char a ∷ hex_char b ∷ hex_char c ∷ hex_char d ∷ [] ≡ hex4 n
hex4_of_digits n a b c d ea eb ec ed = cc

below_16 : (n : ℕ) → n < 16 → format_hex4 n ≡ hex4 n
unfolding format_hex4
below_16 zero h = rw (← zero_char) refl
below_16 (suc m) h =
    padded n _ (format_uint-pos 16 n (omega arith) ∙ one_digit n n [] (omega arith) h (omega arith))
    ∙ rw (← zero_char)
        (hex4_of_digits n 0 0 0 n (omega arith) (omega arith) (omega arith) (omega arith))
  where
    n : ℕ
    n = suc m

below_256 : (n : ℕ) → 16 ≤ n → n < 256 → format_hex4 n ≡ hex4 n
below_256 n p h =
    padded n _ (format_uint-pos 16 n (omega arith) ∙ two_digits n n [] p h (omega arith))
    ∙ rw (← zero_char) (
        hex4_of_digits n 0 0 (n / 16) (n % 16) (omega arith) (omega arith) (omega arith)
          (omega arith))

below_4096 : (n : ℕ) → 256 ≤ n → n < 4096 → format_hex4 n ≡ hex4 n
below_4096 n p h =
    padded n _ (format_uint-pos 16 n (omega arith) ∙ three_digits n n [] p h (omega arith))
    ∙ rw (← zero_char) (
        hex4_of_digits n 0 (n / 16 / 16) (n / 16 % 16) (n % 16) (omega arith) (omega arith)
          (omega arith) (omega arith))

below_65536 : (n : ℕ) → 4096 ≤ n → n < 65536 → format_hex4 n ≡ hex4 n
below_65536 n p h =
    padded n _ (format_uint-pos 16 n (omega arith) ∙ four_digits n n [] p h (omega arith))

-- A number that fits four digits is printed as its four digits.
pub format_hex4-hex4 : (n : ℕ) → n < 65536 → format_hex4 n ≡ hex4 n
format_hex4-hex4 n h = elim (dec_lt n 16) [
  | yes a ↦ below_16 n a
  | no a ↦ elim (dec_lt n 256) [
    | yes b ↦ below_256 n (omega arith) b
    | no b ↦ elim (dec_lt n 4096) [
      | yes c ↦ below_4096 n (omega arith) c
      | no c ↦ below_65536 n (omega arith) h
    ]
  ]
]

-- A number of five digits loses its last one.
pub take-format_hex4 : (n : ℕ) → 65536 ≤ n → n < 1048576 → take 4 (format_hex4 n) ≡ hex4 (n / 16)
take-format_hex4 n p h = ap (take 4) (padded n _ (format_uint-pos 16 n (omega arith) ∙ five))
  where
    five : digits_onto 16 n n [] ≡ hex4 (n / 16) ++ hex_char (n % 16) ∷ []
    five =
        more 16 n n [] (omega arith) (omega arith)
        ∙ four_digits _ (n / 16) _ (omega arith) (omega arith) (omega arith)
