-- ===== src/Delta/Instructions/Copies.antt =====
-- A copy instruction is read back, whichever of its bytes are left out.
use go_repo_dojo.Base.{
  ℕ, suc, ◌+◌, ◌*◌, ◌/◌, ◌%◌, ◌^◌, ◌<◌, bit_and, bit_or, ◌≡◌, refl, sym, ap, ◌∙◌, [], ◌∷◌, ◌++◌,
  inl, inr, false, Bool-cases, arith, ◌==◌, Bytes, length, ok,
}
use go_repo_dojo.Base.Bits.{bit_and_bit, bit_or_low_high}
use native.Mathlib.Nat.{one-le-pow, pow-suc, div-div-eq-div-mul}
use go_repo_dojo.Delta.{read_vals, next_val, copy_chunk, delta_copy_from_base}
use go_repo_dojo.Delta.Instructions.{copy_bytes, flag, flags, present}

-- The bits of the instruction from `i` on tell which of the bytes are there.
Tells : ℕ → ℕ → Bytes → Type 0
Tells i instr [] = Unit {0}
Tells i instr (v ∷ vs) = ((bit_and instr (2 ^ i) == 0) ≡ (v == 0)) × Tells (suc i) instr vs

read_vals-present :
    (vs : Bytes) (i instr : ℕ) (rest : Bytes)
    → Tells i instr vs
    → read_vals (length vs) i instr (present vs ++ rest) ≡ ok (vs, rest)
unfolding read_vals next_val present Tells
read_vals-present [] i instr rest h = refl
read_vals-present (v ∷ vs) i instr rest (e, h) = elim (Bool-cases (v == 0)) [
  | inl z ↦
      let zero_v : 0 ≡ v = ground (arith, z) in
      rw (e, z, read_vals-present vs (suc i) instr rest h)
        (ap (λ (t : ℕ). ok (t ∷ vs, rest)) zero_v)
  | inr nz ↦ rw (e, nz, read_vals-present vs (suc i) instr rest h) refl
]

-- A bit that is a byte's flag tells if the byte is 0.
bit_tells : (k x v : ℕ) → x / 2 ^ k % 2 ≡ flag v → (bit_and x (2 ^ k) == 0) ≡ (v == 0)
bit_tells k x v e = elim (Bool-cases (v == 0)) [
  | inl z ↦
      let no_flag : flag v ≡ 0 = rw z refl in
      let clear : bit_and x (2 ^ k) ≡ 0 =
        omega (arith, bit_and_bit k x, ap (λ (t : ℕ). t * 2 ^ k) (e ∙ no_flag)) in
      rw (clear, z) refl
  | inr nz ↦
      let a_flag : flag v ≡ 1 = rw nz refl in
      let set : bit_and x (2 ^ k) ≡ 2 ^ k =
        omega (arith, bit_and_bit k x, ap (λ (t : ℕ). t * 2 ^ k) (e ∙ a_flag)) in
      rw (set, nz) (ground (arith, one-le-pow k 2))
]

-- The flags stand at the bits from `i` on, below `top`.
Tells-flags :
    (vs : Bytes) (i instr top : ℕ)
    → instr / 2 ^ i ≡ flags vs + top * 2 ^ length vs
    → Tells i instr vs
unfolding Tells flags
Tells-flags [] i instr top e = tt
Tells-flags (v ∷ vs) i instr top e =
    let above : instr / 2 ^ suc i ≡ instr / 2 ^ i / 2 =
      ap (λ (t : ℕ). instr / t) (pow-suc 2 i) ∙ sym (div-div-eq-div-mul instr (2 ^ i) 2) in
    let double : top * 2 ^ suc (length vs) ≡ 2 * (top * 2 ^ length vs) =
      omega (arith, ap (λ (t : ℕ). top * t) (pow-suc 2 (length vs))) in
    (
      bit_tells i instr v (ground (arith, e, double)),
      Tells-flags vs (suc i) instr top (ground (arith, e, double, above)),
    )

-- A copy's bytes are its offset and its size again.
pub copy_chunk-copy_bytes :
    (o n : ℕ)
    → o < 2 ^ 32
    → 0 < n
    → n < 2 ^ 24
    → copy_chunk (copy_bytes o n) ≡ record { kind = delta_copy_from_base; offset = o; size = n }
unfolding copy_chunk
copy_chunk-copy_bytes o n ho pos hn =
    let low : bit_or (n % 256) (n / 2 ^ 8 % 256 * 2 ^ 8) ≡ n % 256 + n / 2 ^ 8 % 256 * 2 ^ 8 =
      bit_or_low_high 8 (n % 256) (n / 2 ^ 8 % 256) (omega arith) in
    let high : bit_or (n % 256 + n / 2 ^ 8 % 256 * 2 ^ 8) (n / 2 ^ 16 * 2 ^ 16)
        ≡ n % 256 + n / 2 ^ 8 % 256 * 2 ^ 8 + n / 2 ^ 16 * 2 ^ 16 =
      bit_or_low_high 16 (n % 256 + n / 2 ^ 8 % 256 * 2 ^ 8) (n / 2 ^ 16) (omega arith) in
    let size : n % 256 + n / 2 ^ 8 % 256 * 2 ^ 8 + n / 2 ^ 16 * 2 ^ 16 ≡ n = omega arith in
    let offset : o % 256 + o / 2 ^ 8 % 256 * 2 ^ 8 + o / 2 ^ 16 % 256 * 2 ^ 16 + o / 2 ^ 24 * 2 ^ 24
        ≡ o =
      omega arith in
    let not_zero : (n == 0) ≡ false = ground arith in rw (low, high, size, offset, not_zero) refl

pub read_vals-encode :
    (o n : ℕ) (rest : Bytes)
    → read_vals 7 0 (128 + flags (copy_bytes o n)) (present (copy_bytes o n) ++ rest)
      ≡ ok (copy_bytes o n, rest)
read_vals-encode o n rest =
    read_vals-present (copy_bytes o n) 0 (128 + flags (copy_bytes o n)) rest
      (Tells-flags (copy_bytes o n) 0 (128 + flags (copy_bytes o n)) 1 (omega arith))
