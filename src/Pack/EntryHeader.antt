-- ===== src/Pack/EntryHeader.antt =====
-- The header of an object that was written is read back.
use go_repo_dojo.Base.{
  ℕ, zero, suc, ◌+◌, ◌*◌, ◌/◌, ◌%◌, ◌^◌, ◌≤◌, ◌<◌, bit_and, bit_or, ◌≡◌, refl, ap, ◌∙◌, [], ◌∷◌,
  ◌++◌, arith, Bytes, ok, length, drop-length_append,
}
use go_repo_dojo.Base.Bits.{
  and_0f, and_7f, and_80, bit_and_low_mask, bit_or_low_high, bit_or_high_low, zero-bit_or,
}
use go_repo_dojo.Object.{
  ObjectKind, object_kind_blob, object_kind_tree, object_kind_commit, object_kind_tag,
}
use go_repo_dojo.Pack.{
  object_kind_to_pack_object_kind, pack_object_kind_to_object_kind, size_loop, read_kind_and_size,
  size_bytes, write_object_header, basic, entry_of, init_pack_object_reader_at_position,
}
use native.Mathlib.Decide.{dec_lt}
use native.Mathlib.Numerals.{towards_suc}
use native.Mathlib.Nat.{div-add-mod}

-- A byte of the loop with its top bit clear is the last one, one with it set is not.
last_byte :
    (g acc shift : ℕ) (rest : Bytes)
    → g < 128
    → acc < 2 ^ shift
    → acc + g * 2 ^ shift < 2 ^ 64
    → size_loop (g ∷ rest) acc shift ≡ ok (acc + g * 2 ^ shift, rest)
unfolding size_loop
last_byte g acc shift rest hg ha fits =
    ground (arith, and_7f g, and_80 g (omega arith), bit_or_low_high shift acc g ha)

inner_byte :
    (g acc shift : ℕ) (rest : Bytes)
    → g < 128
    → acc < 2 ^ shift
    → acc + g * 2 ^ shift < 2 ^ 64
    → size_loop ((g + 128) ∷ rest) acc shift ≡ size_loop rest (acc + g * 2 ^ shift) (shift + 7)
unfolding size_loop
inner_byte g acc shift rest hg ha fits =
    ground (arith, and_7f (g + 128), and_80 (g + 128) (omega arith), bit_or_low_high shift acc g ha)

pow_seven : (s : ℕ) → 2 ^ (s + 7) ≡ 128 * 2 ^ s
pow_seven s = simp towards_suc (omega arith)

-- Seven bits and the rest of a size, both at bit `s`.
seven_and_rest : (w s : ℕ) → w * 2 ^ s ≡ w % 128 * 2 ^ s + w / 128 * 2 ^ (s + 7)
seven_and_rest w s =
    let parts = ap (λ (t : ℕ). t * 2 ^ s) (div-add-mod w 128) in
    let above = ap (λ (t : ℕ). w / 128 * t) (pow_seven s) in omega (arith, parts, above)

grown : (acc g s : ℕ) → acc < 2 ^ s → g < 128 → acc + g * 2 ^ s < 2 ^ (s + 7)
grown acc g s ha hg = grind (arith, pow_seven s)

written_byte : (w : ℕ) → 128 ≤ w → bit_or (bit_and w 0x7f) 0x80 ≡ w % 128 + 128
written_byte w h =
    omega
      (arith, ap (λ (t : ℕ). bit_or t 0x80) (and_7f w), bit_or_low_high 7 (w % 128) 1 (omega arith))

size_bytes-zero : (fuel : ℕ) → size_bytes fuel 0 ≡ []
unfolding size_bytes
size_bytes-zero zero = refl
size_bytes-zero (suc fuel) = refl

size_bytes_last : (fuel w : ℕ) → 0 < w → w < 128 → size_bytes (suc fuel) w ≡ w ∷ []
unfolding size_bytes
size_bytes_last fuel w p h =
    let e : w / 128 ≡ 0 = omega arith in rw e (ground (arith, and_7f w, size_bytes-zero fuel))

size_bytes_more :
    (fuel w : ℕ) → 128 ≤ w → size_bytes (suc fuel) w ≡ (w % 128 + 128) ∷ size_bytes fuel (w / 128)
unfolding size_bytes
size_bytes_more fuel w h = ground (arith, written_byte w h)

-- The loop reads back the bytes of `w`, which counts from bit `shift` on.
pub size_loop-size_bytes :
    (fuel w acc shift : ℕ) (rest : Bytes)
    → 0 < w
    → w ≤ fuel
    → acc < 2 ^ shift
    → acc + w * 2 ^ shift < 2 ^ 64
    → size_loop (size_bytes fuel w ++ rest) acc shift ≡ ok (acc + w * 2 ^ shift, rest)
size_loop-size_bytes zero w acc shift rest p h ha fits = absurd (omega arith)
size_loop-size_bytes (suc fuel) w acc shift rest p h ha fits = elim (dec_lt w 128) [
  | yes small ↦ rw (size_bytes_last fuel w p small) (last_byte w acc shift rest small ha fits)
  | no big ↦
      let split = seven_and_rest w shift in
      rw (size_bytes_more fuel w (omega arith)) (
        inner_byte (w % 128) acc shift _ (omega arith) ha (omega arith)
        ∙ size_loop-size_bytes fuel (w / 128) _ (shift + 7) rest (omega arith) (omega arith)
            (grown acc (w % 128) shift ha (omega arith)) (omega (arith, split))
        ∙ ap (λ (t : ℕ). ok (t, rest)) (omega (arith, split)))
]

-- The first byte of a header, by its fields.
first_byte :
    (k low : ℕ) (more : ℕ)
    → k < 8
    → low < 16
    → more < 2
    → (bit_and ((more * 128 + k * 16 + low) / 16) 0x07 ≡ k)
      × (bit_and (more * 128 + k * 16 + low) 0x0f ≡ low)
      × (bit_and (more * 128 + k * 16 + low) 0x80 ≡ more * 128)
first_byte k low more hk hl hm = (
  omega (arith, bit_and_low_mask 3 ((more * 128 + k * 16 + low) / 16)),
  omega (arith, and_0f (more * 128 + k * 16 + low)),
  omega (arith, and_80 (more * 128 + k * 16 + low) (omega arith)),
)

kind_bits :
    (k : ObjectKind)
    → (1 ≤ object_kind_to_pack_object_kind k)
      × (object_kind_to_pack_object_kind k ≤ 4)
      × (bit_or 0x80 (object_kind_to_pack_object_kind k * 16 % 256)
          ≡ 128 + object_kind_to_pack_object_kind k * 16)
      × (pack_object_kind_to_object_kind (object_kind_to_pack_object_kind k) ≡ k)
unfolding object_kind_to_pack_object_kind pack_object_kind_to_object_kind
kind_bits object_kind_blob = (omega arith, omega arith, refl, refl)
kind_bits object_kind_tree = (omega arith, omega arith, refl, refl)
kind_bits object_kind_commit = (omega arith, omega arith, refl, refl)
kind_bits object_kind_tag = (omega arith, omega arith, refl, refl)

header_small :
    (k : ObjectKind) (size : ℕ)
    → size < 16
    → write_object_header k size ≡ (0 * 128 + object_kind_to_pack_object_kind k * 16 + size) ∷ []
unfolding write_object_header
header_small k size h =
    let b = kind_bits k in
    let e : size / 16 ≡ 0 = omega arith in
    rw e (
      ground (
        arith,
        size_bytes-zero 0,
        and_0f size,
        zero-bit_or (object_kind_to_pack_object_kind k * 16 % 256),
        bit_or_high_low 4 (object_kind_to_pack_object_kind k) size h,
        b.1,
      ))

header_large :
    (k : ObjectKind) (size : ℕ)
    → 16 ≤ size
    → write_object_header k size
      ≡ (1 * 128 + object_kind_to_pack_object_kind k * 16 + size % 16)
        ∷ size_bytes (size / 16) (size / 16)
unfolding write_object_header
header_large k size h =
    let b = kind_bits k in
    ground (
      arith,
      and_0f size,
      bit_or_high_low 4 (8 + object_kind_to_pack_object_kind k) (size % 16) (omega arith),
      b.1,
      b.2,
    )

read_kind_and_size-write_object_header :
    (k : ObjectKind) (size : ℕ) (rest : Bytes)
    → size < 2 ^ 64
    → read_kind_and_size (write_object_header k size ++ rest)
      ≡ ok (object_kind_to_pack_object_kind k, size, rest)
unfolding read_kind_and_size
read_kind_and_size-write_object_header k size rest fits =
    let n = object_kind_to_pack_object_kind k in
    let b = kind_bits k in
    elim (dec_lt size 16) [
      | yes small ↦
          let f = first_byte n size 0 (omega (arith, b.1)) small (omega arith) in
          rw (header_small k size small) (ground (arith, f.0, f.1, f.2))
      | no big ↦
          let f = first_byte n (size % 16) 1 (omega (arith, b.1)) (omega arith) (omega arith) in
          rw (header_large k size (omega arith)) (
            ground (
              arith,
              f.0,
              f.1,
              f.2,
              size_loop-size_bytes (size / 16) (size / 16) (size % 16) 4 rest (omega arith)
                  (omega arith) (omega arith) (omega arith),
            ))
    ]

-- The header that `writeObjectHeader` writes for an object with a uint64 size, at any position of a
-- pack, is read as that kind and that size, and the compressed data begins behind it.
pub init_pack_object_reader-write_object_header :
    (k : ObjectKind) (size : ℕ) (front rest : Bytes)
    → size < 2 ^ 64
    → init_pack_object_reader_at_position
        (front ++ (write_object_header k size ++ rest))
        (length front)
      ≡ ok (basic k, size, rest)
unfolding init_pack_object_reader_at_position entry_of
init_pack_object_reader-write_object_header k size front rest fits =
    let b = kind_bits k in
    rw
      (
        drop-length_append front _ (length front) refl,
        read_kind_and_size-write_object_header k size rest fits,
      )
      (ground (arith, b.0, b.1, b.3))
