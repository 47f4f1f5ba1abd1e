-- ===== src/Number/RoundTrip.antt =====
-- `ParseUint` reads back what `fmt` printed.
use go_repo_dojo.Base.{
  ℕ, zero, suc, ◌-◌, ◌/◌, ◌%◌, ◌^◌, ◌≤◌, ◌<◌, ◌≡◌, ◌≢◌, refl, ◌∙◌, inl, inr, some, [], ◌∷◌, arith,
  Bytes, ◌==◌, ◌-◌, Bool-cases, All,
}
use go_repo_dojo.Hex.{hex_char}
use go_repo_dojo.Number.{digits_onto, format_uint, digit_value, scan_digit, scan, parse_uint}
use native.Mathlib.Nat.{
  div-add-mod', mod-lt, div-lt_self, div-le_self, le-div_iff_mul-le, div-mul-le_self, le_trans,
}
use mathlib.Core.List.{cons-ne-nil}

digit_value-hex_char : (d : ℕ) → d < 16 → digit_value (hex_char d) ≡ some d
unfolding digit_value hex_char
digit_value-hex_char d h = ground arith

scan_digit_last :
    (base max n : ℕ)
    → 2 ≤ base
    → n ≤ max
    → max < 2 ^ 64
    → scan_digit base max (some (n / base)) (some (n % base)) ≡ some n
unfolding scan_digit
scan_digit_last base max n hb hn hm = ground (
  arith,
  div-add-mod' n base,
  mod-lt n {m = base} (omega arith),
  (le-div_iff_mul-le {k = base} {x = n / base} {y = 2 ^ 64 - 1} (omega arith)).1
      (omega (arith, div-mul-le_self n base)),
)

scan_last :
    (base max n : ℕ) (out : Bytes)
    → 2 ≤ base
    → base ≤ 16
    → n ≤ max
    → max < 2 ^ 64
    → scan base max (hex_char (n % base) ∷ out) (some (n / base)) ≡ scan base max out (some n)
unfolding scan
scan_last base max n out hb hc hn hm = rw (
  digit_value-hex_char (n % base) (le_trans (mod-lt n {m = base} (omega arith)) hc),
  scan_digit_last base max n hb hn hm,
)

scan-digits_onto :
    (base max fuel n : ℕ) (out : Bytes)
    → 2 ≤ base
    → base ≤ 16
    → n ≤ max
    → max < 2 ^ 64
    → n ≤ fuel
    → scan base max (digits_onto base fuel n out) (some 0) ≡ scan base max out (some n)
unfolding digits_onto
scan-digits_onto base max zero n out hb hc hn hm hf = let e : n ≡ 0 = omega arith in rw e
scan-digits_onto base max (suc fuel) n out hb hc hn hm hf = elim (Bool-cases (n == 0)) [
  | inl z ↦ (let e : n ≡ 0 = ground arith in rw e)
  | inr nz ↦
      rw (nz, digits_onto)
        (scan-digits_onto base max fuel (n / base) _ hb hc (le_trans (div-le_self n base) hn) hm
            (omega (arith, div-lt_self {n = n} {k = base} (ground arith) hb))
          ∙ scan_last base max n out hb hc hn hm)
]

digits_onto-ne-nil : (base fuel n : ℕ) (out : Bytes) → out ≢ [] → digits_onto base fuel n out ≢ []
unfolding digits_onto
digits_onto-ne-nil base zero n out h = h
digits_onto-ne-nil base (suc fuel) n out h = elim (Bool-cases (n == 0)) [
  | inl z ↦ rw (z, digits_onto) h
  | inr nz ↦ rw (nz, digits_onto) (digits_onto-ne-nil base fuel (n / base) _ (cons-ne-nil _ _))
]

parse_uint-scan :
    (base bits : ℕ) (s : Bytes)
    → s ≢ []
    → parse_uint base bits s ≡ scan base (2 ^ bits - 1) s (some 0)
unfolding parse_uint
parse_uint-scan base bits [] h = absurd (h refl)
parse_uint-scan base bits (c ∷ s) h = refl

digits_onto-pos-ne-nil : (base n : ℕ) → n ≢ 0 → digits_onto base n n [] ≢ []
unfolding digits_onto
digits_onto-pos-ne-nil base zero h = absurd (h refl)
digits_onto-pos-ne-nil base (suc n) h =
    ground
      (arith, digits_onto-ne-nil base n (suc n / base) _ (cons-ne-nil (hex_char (suc n % base)) []))

parse_uint_zero : (base bits : ℕ) → 2 ≤ base → parse_uint base bits (b'0' ∷ []) ≡ some 0
unfolding parse_uint
parse_uint_zero base bits h = ground arith

-- A number below the size of its type is read back from its print in any base from 2 to 16.
pub parse_uint-format_uint :
    (base bits n : ℕ)
    → 2 ≤ base
    → base ≤ 16
    → n ≤ 2 ^ bits - 1
    → 2 ^ bits - 1 < 2 ^ 64
    → parse_uint base bits (format_uint base n) ≡ some n
unfolding format_uint scan
parse_uint-format_uint base bits n hb hc hn hm = elim (Bool-cases (n == 0)) [
  | inl z ↦ rw z (let e : n ≡ 0 = ground arith in rw e (parse_uint_zero base bits hb))
  | inr nz ↦ rw nz (
      rw (parse_uint-scan base bits _ (digits_onto-pos-ne-nil base n (ground arith)))
        (scan-digits_onto base _ n n [] hb hc hn hm (omega arith)))
]

hex_char-ne : (d c : ℕ) → d < 16 → c < b'0' → hex_char d ≢ c
unfolding hex_char
hex_char-ne d c hd h = ground arith

digits_onto-All :
    (P : ℕ → Type 0)
    → ((d : ℕ) → d < 16 → P (hex_char d))
    → (base fuel n : ℕ) (out : Bytes) → 2 ≤ base
    → base ≤ 16
    → All P out
    → All P (digits_onto base fuel n out)
unfolding digits_onto
digits_onto-All P p base zero n out hb hc h = h
digits_onto-All P p base (suc fuel) n out hb hc h = elim (Bool-cases (n == 0)) [
  | inl z ↦ rw (z, digits_onto) h
  | inr nz ↦
      rw (nz, digits_onto)
        (digits_onto-All P p base fuel (n / base) _ hb hc
          (p (n % base) (le_trans (mod-lt n {m = base} (omega arith)) hc), h))
]

-- A printed number holds no byte that is not a digit, such as a separator.
pub format_uint-Lacks :
    (base n c : ℕ) → 2 ≤ base → base ≤ 16 → c < b'0' → All (λ x. x ≢ c) (format_uint base n)
unfolding format_uint
format_uint-Lacks base n c hb hc h = elim (Bool-cases (n == 0)) [
  | inl z ↦ rw z ((λ e. absurd (omega arith)), tt)
  | inr nz ↦ rw nz (digits_onto-All _ (λ d hd. hex_char-ne d c hd h) base n n [] hb hc tt)
]
