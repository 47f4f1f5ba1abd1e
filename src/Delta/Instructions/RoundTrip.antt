-- ===== src/Delta/Instructions/RoundTrip.antt =====
-- `initDelta` finds the chunks of a delta in its encoding.
use go_repo_dojo.Base.{
  ℕ, zero, suc, ◌+◌, ◌-◌, ◌^◌, ◌≤◌, ◌<◌, bit_and, ◌≡◌, refl, sym, ap, ◌∙◌, List, [], ◌∷◌, ◌++◌, inl,
  inr, Bool, true, false, Bool-cases, if◌then◌else◌, arith, ◌==◌, ltb, leb, Bytes, length, take,
  drop, ok, Option, none, some, append_assoc, All, length-append, take-length_append,
  drop-length_append, drop-drop, length-take, length-drop,
}
use native.Mathlib.Nat.{pow-suc}
use go_repo_dojo.Delta.Caching.Copies.{IsFit}
use go_repo_dojo.Base.Bits.{and_7f, and_80}
use go_repo_dojo.Pack.{size_loop}
use go_repo_dojo.Pack.EntryHeader.{size_loop-size_bytes}
use go_repo_dojo.Pkt.{read_full}
use go_repo_dojo.Delta.{
  DeltaChunk, Chunks, DeltaPlan, delta_copy_from_base, add_chunk, read_var_size, instruction,
  instructions, new_data, skip_front, init_delta, chunk_bytes, wanted, expand,
}
use go_repo_dojo.Delta.Instructions.{
  DeltaInstruction, insert_data, copy_base, copy_bytes, flags, present, encode, encode_all,
  var_size, encode_delta, apply_instruction, apply_all, HasRoom,
}
use go_repo_dojo.Delta.Instructions.Copies.{read_vals-encode, copy_chunk-copy_bytes}

-- The chunk of an instruction behind its first byte, and the bytes that follow that byte.
args : DeltaInstruction → Bytes
args (insert_data d) = d
args (copy_base o n) = present (copy_bytes o n)

opcode : DeltaInstruction → ℕ
opcode (insert_data d) = length d
opcode (copy_base o n) = 128 + flags (copy_bytes o n)

chunk_of : Bool → ℕ → DeltaInstruction → DeltaChunk × Option Bytes
chunk_of is_stream pos (insert_data d) =
    (add_chunk pos (length d), if is_stream then some d else none)
chunk_of is_stream pos (copy_base o n) =
    (record { kind = delta_copy_from_base; offset = o; size = n }, none)

encode-opcode : (i : DeltaInstruction) → encode i ≡ opcode i ∷ args i
unfolding encode opcode args
encode-opcode (insert_data d) = refl
encode-opcode (copy_base o n) = refl

read_var_size-var_size :
    (n : ℕ) (rest : Bytes) → n < 2 ^ 64 → read_var_size (var_size n ++ rest) ≡ ok (n, rest)
unfolding read_var_size var_size size_loop
read_var_size-var_size n rest h = elim (Bool-cases (n == 0)) [
  | inl z ↦ let no_size : 0 ≡ n = ground (arith, z) in rw z (ap (λ (t : ℕ). ok (t, rest)) no_size)
  | inr nz ↦ rw nz (
      size_loop-size_bytes n n 0 0 rest (ground (arith, nz)) (omega arith) (omega arith)
        (omega arith)
      ∙ ap (λ (t : ℕ). ok (t, rest)) (omega arith))
]

read_full-append : (d rest : Bytes) → read_full (length d) (d ++ rest) ≡ ok (d, rest)
unfolding read_full
read_full-append d rest =
    let enough : leb (length d) (length (d ++ rest)) ≡ true =
      ground (arith, length-append d rest) in
    rw
      (enough, take-length_append d rest (length d) refl, drop-length_append d rest (length d) refl)
      refl

new_data-append :
    (is_stream : Bool) (d rest : Bytes)
    → new_data is_stream (length d) (d ++ rest) ≡ ok (if is_stream then some d else none, rest)
unfolding new_data skip_front
new_data-append true d rest = rw (read_full-append d rest) refl
new_data-append false d rest =
    let enough : ltb (length (d ++ rest)) (length d) ≡ false =
      ground (arith, length-append d rest) in
    rw (enough, drop-length_append d rest (length d) refl) refl

flags_bound : (vs : Bytes) → flags vs < 2 ^ length vs
unfolding flags
flags_bound [] = omega arith
flags_bound (v ∷ vs) = ground (arith, flags_bound vs, pow-suc 2 (length vs))

-- One round reads one instruction.
instruction-encode :
    (is_stream : Bool) (base : Bytes) (i : DeltaInstruction) (pos : ℕ) (rest : Bytes)
    → HasRoom base i
    → instruction is_stream (opcode i) pos (args i ++ rest)
      ≡ ok (chunk_of is_stream pos i ∷ [], pos + length (args i), rest)
unfolding instruction opcode args chunk_of HasRoom
instruction-encode is_stream base (insert_data d) pos rest (low, high) =
    let clear : (bit_and (length d) 0x80 == 0) ≡ true =
      ground (arith, and_80 (length d) (omega arith)) in
    let size : bit_and (length d) 0x7f ≡ length d = omega (arith, and_7f (length d)) in
    let some_data : (length d == 0) ≡ false = ground arith in
    rw (clear, size, some_data, new_data-append is_stream d rest) refl
instruction-encode is_stream base (copy_base o n) pos rest (low, high, ho, fits) =
    let set : (bit_and (128 + flags (copy_bytes o n)) 0x80 == 0) ≡ false = ground (
      arith,
      and_80 (128 + flags (copy_bytes o n)) (omega (arith, flags_bound (copy_bytes o n))),
      flags_bound (copy_bytes o n),
    ) in
    let count : length (present (copy_bytes o n) ++ rest) - length rest
        ≡ length (present (copy_bytes o n)) =
      omega (arith, length-append (present (copy_bytes o n)) rest) in
    rw (set, read_vals-encode o n rest, copy_chunk-copy_bytes o n ho low high, count) refl

-- The chunks of instructions that begin at a position of the data.
chunks_of : Bool → ℕ → List DeltaInstruction → Chunks
chunks_of is_stream pos [] = []
chunks_of is_stream pos (i ∷ is) =
    chunk_of is_stream (pos + 1) i ∷ chunks_of is_stream (pos + 1 + length (args i)) is

length-encode_all :
    (i : DeltaInstruction) (is : List DeltaInstruction)
    → length (encode_all (i ∷ is)) ≡ 1 + length (args i) + length (encode_all is)
unfolding encode_all
length-encode_all i is = omega (
  arith,
  length-append (encode i) (encode_all is),
  ap (λ (b : Bytes). length b) (encode-opcode i),
)

encode_all_next :
    (i : DeltaInstruction) (is : List DeltaInstruction)
    → encode_all (i ∷ is) ≡ opcode i ∷ (args i ++ encode_all is)
unfolding encode_all
encode_all_next i is = ap (λ (b : Bytes). b ++ encode_all is) (encode-opcode i)

instructions-encode_all :
    (is_stream : Bool) (base : Bytes) (is : List DeltaInstruction) (fuel pos size : ℕ)
    → All (HasRoom base) is
    → length (encode_all is) ≤ fuel
    → size ≡ pos + length (encode_all is)
    → instructions fuel is_stream size pos (encode_all is) ≡ ok (chunks_of is_stream pos is, size)
unfolding instructions chunks_of encode_all
instructions-encode_all is_stream base [] zero pos size h enough e =
    let at_end : ltb pos size ≡ false = ground (arith, e) in
    rw at_end (ap (λ (t : ℕ). ok ([], t)) (omega (arith, e)))
instructions-encode_all is_stream base [] (suc fuel) pos size h enough e =
    let at_end : ltb pos size ≡ false = ground (arith, e) in
    rw at_end (ap (λ (t : ℕ). ok ([], t)) (omega (arith, e)))
instructions-encode_all is_stream base (i ∷ is) zero pos size h enough e =
    absurd (omega (arith, length-encode_all i is))
instructions-encode_all is_stream base (i ∷ is) (suc fuel) pos size (hi, h) enough e =
    let len = length-encode_all i is in
    let below : ltb pos size ≡ true = ground (arith, e, len) in
    let rest =
      instructions-encode_all is_stream base is fuel (pos + 1 + length (args i)) size h
        (omega (arith, len, enough)) (omega (arith, len, e)) in
    ap (instructions (suc fuel) is_stream size pos) (encode_all_next i is)
    ∙ rw (below, instruction-encode is_stream base i (pos + 1) (encode_all is) hi, rest) refl

length_part : (o n : ℕ) (base : Bytes) → o + n ≤ length base → length (take n (drop o base)) ≡ n
length_part o n base h = omega (arith, length-take n (drop o base), length-drop o base)

-- A chunk stands for what its instruction puts, and is fit to be cached.
chunk_lem :
    (is_stream : Bool) (content base rest : Bytes) (i : DeltaInstruction) (pos : ℕ)
    → HasRoom base i
    → drop pos content ≡ args i ++ rest
    → (wanted content base (chunk_of is_stream pos i).0 ≡ apply_instruction base i)
      × IsFit content base (chunk_of is_stream pos i)
unfolding HasRoom chunk_of apply_instruction args chunk_bytes IsFit
chunk_lem is_stream content base rest (copy_base o n) pos (low, high, ho, fits) e =
    (refl, (low, length_part o n base fits, inl refl))
chunk_lem true content base rest (insert_data d) pos (low, high) e =
    let here = ap (take (length d)) e ∙ take-length_append d rest (length d) refl in
    (here, (low, ap (λ (b : Bytes). length b) here, inr (ap some (sym here))))
chunk_lem false content base rest (insert_data d) pos (low, high) e =
    let here = ap (take (length d)) e ∙ take-length_append d rest (length d) refl in
    (here, (low, ap (λ (b : Bytes). length b) here, inl refl))

behind_args :
    (content rest : Bytes) (i : DeltaInstruction) (pos : ℕ)
    → drop pos content ≡ args i ++ rest
    → drop (pos + length (args i)) content ≡ rest
behind_args content rest i pos e =
    sym (drop-drop pos (length (args i)) (pos + length (args i)) content refl)
    ∙ ap (drop (length (args i))) e
    ∙ drop-length_append (args i) rest (length (args i)) refl

chunks_lem :
    (is_stream : Bool) (content base : Bytes) (is : List DeltaInstruction) (pos : ℕ)
    → All (HasRoom base) is
    → drop pos content ≡ encode_all is
    → (expand content base (chunks_of is_stream pos is) ≡ apply_all base is)
      × All (IsFit content base) (chunks_of is_stream pos is)
unfolding expand apply_all chunks_of
chunks_lem is_stream content base [] pos h e = (refl, tt)
chunks_lem is_stream content base (i ∷ is) pos (hi, h) e =
    let at_args : drop (pos + 1) content ≡ args i ++ encode_all is =
      sym (drop-drop pos 1 (pos + 1) content refl) ∙ ap (drop 1) (e ∙ encode_all_next i is) in
    let (here, fit) = chunk_lem is_stream content base (encode_all is) i (pos + 1) hi at_args in
    let (later, fields_of_entries) =
      chunks_lem is_stream content base is (pos + 1 + length (args i)) h
        (behind_args content (encode_all is) i (pos + 1) at_args) in
    (
      ap
            (λ (b : Bytes).
              b ++ expand content base (chunks_of is_stream (pos + 1 + length (args i)) is))
            here
          ∙ ap (λ (b : Bytes). apply_instruction base i ++ b) later,
      (fit, fields_of_entries),
    )

-- If every insertion has 1 to 127 bytes, every copy has 1 to 2 ^ 24 - 1 bytes, begins below 2 ^ 32 and
-- lies in the base, and the sizes of the base and of the object are below 2 ^ 64, then the encoding of a
-- delta is read to its end, from a pack that is a stream and from one that is not. It gives the object's
-- size, and chunks that stand for what the instructions make of the base, each of them not empty, inside
-- its source, and not cached or cached rightly.
pub init_delta-encode_delta :
    (is_stream : Bool) (base_size recon_size : ℕ) (base : Bytes) (is : List DeltaInstruction)
    → base_size < 2 ^ 64
    → recon_size < 2 ^ 64
    → All (HasRoom base) is
    → let content = encode_delta base_size recon_size is in
      (plan : DeltaPlan) × (init_delta is_stream (length content) content ≡ ok plan)
      × (plan.recon_size ≡ recon_size)
      × (plan.bytes_read ≡ length content)
      × (expand content base plan.chunks ≡ apply_all base is)
      × All (IsFit content base) plan.chunks
unfolding init_delta encode_delta
init_delta-encode_delta is_stream base_size recon_size base is hb hr h =
    let content = encode_delta base_size recon_size is in
    let front = var_size base_size ++ var_size recon_size in
    let whole : front ++ encode_all is ≡ content =
      append_assoc (var_size base_size) (var_size recon_size) (encode_all is) in
    let pos = length content - length (encode_all is) in
    let len : length content ≡ length front + length (encode_all is) =
      ap (λ (b : Bytes). length b) (sym whole) ∙ length-append front (encode_all is) in
    let (eq, fit) = chunks_lem is_stream content base is pos h (
      ap (drop pos) (sym whole)
      ∙ drop-length_append front (encode_all is) pos (omega (arith, len))) in
    let read =
      instructions-encode_all is_stream base is (length (encode_all is)) pos (length content) h
        (omega arith) (omega (arith, len)) in
    (
      record {
        recon_size = recon_size;
        chunks = chunks_of is_stream pos is;
        bytes_read = length content;
      },
      rw
          (
            read_var_size-var_size base_size (var_size recon_size ++ encode_all is) hb,
            read_var_size-var_size recon_size (encode_all is) hr,
            read,
          )
          refl,
      refl,
      refl,
      eq,
      fit,
    )
