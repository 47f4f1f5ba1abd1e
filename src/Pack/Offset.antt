-- ===== src/Pack/Offset.antt =====
-- The offset of a delta's base, against the encoding that git's pack format prescribes.
use go_repo_dojo.Base.{
  ℕ, zero, suc, ◌+◌, ◌-◌, ◌*◌, ◌/◌, ◌%◌, ◌^◌, ◌≤◌, ◌<◌, ◌≡◌, ap, ◌∙◌, inl, inr, [], ◌∷◌, ◌++◌, true,
  false, arith, Bytes, ◌==◌, Bool-cases, ok,
}
use go_repo_dojo.Base.Bits.{and_7f, and_80, bit_or_high_low}
use go_repo_dojo.Pack.{offset_loop, read_offset, ofs_delta, entry_of}

-- git's encoder works from the last byte back: each byte in front of it holds seven bits of what is
-- left, less one, with the top bit set.
groups_onto : ℕ → ℕ → Bytes → Bytes
groups_onto zero n out = out
groups_onto (suc fuel) n out = elim (n == 0) [
  | true ↦ out
  | false ↦ groups_onto fuel ((n - 1) / 128) (((n - 1) % 128 + 128) ∷ out)
]

pub encode_offset : ℕ → Bytes
encode_offset n = groups_onto (n / 128) (n / 128) (n % 128 ∷ [])

last_group :
    (g acc : ℕ) (rest : Bytes)
    → g < 128
    → acc * 128 + g < 2 ^ 64
    → offset_loop (g ∷ rest) acc ≡ ok (acc * 128 + g, rest)
unfolding offset_loop
last_group g acc rest hg fits =
    ground (arith, and_7f g, and_80 g (omega arith), bit_or_high_low 7 acc g hg)

inner_group :
    (g acc : ℕ) (rest : Bytes)
    → g < 128
    → acc * 128 + g + 1 < 2 ^ 64
    → offset_loop ((g + 128) ∷ rest) acc ≡ offset_loop rest (acc * 128 + g + 1)
unfolding offset_loop
inner_group g acc rest hg fits =
    ground (arith, and_7f (g + 128), and_80 (g + 128) (omega arith), bit_or_high_low 7 acc g hg)

-- Reading the groups of `n` from nothing amounts to having read `n`.
offset_loop-groups_onto :
    (fuel n : ℕ) (out rest : Bytes)
    → n ≤ fuel
    → n < 2 ^ 64
    → offset_loop (groups_onto fuel n out ++ rest) 0 ≡ offset_loop (out ++ rest) n
unfolding groups_onto
offset_loop-groups_onto zero n out rest h fits = let e : n ≡ 0 = omega arith in rw e
offset_loop-groups_onto (suc fuel) n out rest h fits = elim (Bool-cases (n == 0)) [
  | inl z ↦ let e : n ≡ 0 = ground arith in rw e
  | inr nz ↦
      rw (nz, groups_onto)
        (let pos : 0 < n = ground arith in
          offset_loop-groups_onto fuel ((n - 1) / 128) _ rest (omega arith) (omega arith)
          ∙ inner_group ((n - 1) % 128) ((n - 1) / 128) (out ++ rest) (omega arith) (omega arith)
          ∙ ap (offset_loop (out ++ rest)) (omega arith))
]

-- The decoder reads every uint64 offset back from git's encoding of it, and leaves what follows.
pub read_offset-encode_offset :
    (n : ℕ) (rest : Bytes) → n < 2 ^ 64 → read_offset (encode_offset n ++ rest) ≡ ok (n, rest)
unfolding read_offset encode_offset
read_offset-encode_offset n rest fits =
    offset_loop-groups_onto (n / 128) (n / 128) (n % 128 ∷ []) rest (omega arith) (omega arith)
    ∙ last_group (n % 128) (n / 128) rest (omega arith) (omega arith)
    ∙ ap (λ (t : ℕ). ok (t, rest)) (omega arith)

-- The entry of a delta by offset: its base lies `n` bytes before the delta, if it lies in the pack.
pub entry_of-encode_offset :
    (position n : ℕ) (rest : Bytes)
    → n ≤ position
    → position < 2 ^ 64
    → entry_of position 6 (encode_offset n ++ rest) ≡ ok (ofs_delta (position - n), rest)
unfolding entry_of
entry_of-encode_offset position n rest h fits =
    rw (read_offset-encode_offset n rest (omega arith))
      (ap (λ (t : ℕ). ok (ofs_delta t, rest)) (omega arith))
