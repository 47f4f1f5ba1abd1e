-- ===== src/Delta.antt =====
-- pack.go: objects that a pack stores as a delta against a base. The instructions are read from the
-- decompressed data, given as the list of its bytes. The base and, for data that is read again later,
-- the stream itself are readers with the contract of Readers.antt. `chunks` and `chunkData`, which Go
-- keeps as parallel slices, are one list of pairs.
pub mod Instructions
pub mod Caching
pub mod Stream
pub mod Reader
pub mod Applied
use go_repo_dojo.Base.{
  ℕ, zero, suc, ◌+◌, ◌-◌, ◌*◌, ◌^◌, bit_and, bit_or, Bool, true, false, ◌&&◌, ◌||◌, Option, none,
  some, List, [], ◌∷◌, ◌++◌, ◌==◌, ltb, leb, if◌then◌else◌, Bytes, length, take, drop, get_elem?,
  Error, Result, ok, err, ◌>>=◌, eof, invalid_delta_cache, stuck,
}
use go_repo_dojo.Pkt.{read_full}
use go_repo_dojo.Pack.{size_loop}

pub data DeltaChunkKind : Type 0 where
  delta_add_new delta_copy_from_base : DeltaChunkKind

pub record DeltaChunk : Type 0 where
  pub kind : DeltaChunkKind
  pub offset : ℕ
  pub size : ℕ

-- A chunk and its cached bytes; `none` is nil.
abbrev pub Chunks : Type 0
Chunks = List (DeltaChunk × Option Bytes)

-- `readVarSize`: seven bits a byte, as in the header of an entry.
unfoldable pub read_var_size : Bytes → Result (ℕ × Bytes)
read_var_size r = size_loop r 0 0

-- One of the seven optional bytes of a copy; `absent` if its bit is clear.
next_val : Bool → Bytes → Result (ℕ × Bytes)
next_val true r = ok (0, r)
next_val false [] = err eof
next_val false (b ∷ r) = ok (b, r)

-- The bytes for the bits from `i` on.
pub read_vals : ℕ → ℕ → ℕ → Bytes → Result (Bytes × Bytes)
unfolding next_val
read_vals zero i instr r = ok ([], r)
read_vals (suc n) i instr r = do
  (v, r') ← next_val (bit_and instr (2 ^ i) == 0) r
  (vs, r'') ← read_vals n (suc i) instr r'
  ok (v ∷ vs, r'')

-- `vals` has seven bytes: four of the offset, three of the size, little-endian.
pub copy_chunk : Bytes → DeltaChunk
copy_chunk (v0 ∷ v1 ∷ v2 ∷ v3 ∷ v4 ∷ v5 ∷ v6 ∷ []) =
    let copy_size = bit_or (bit_or v4 (v5 * 2 ^ 8)) (v6 * 2 ^ 16) in
    record {
      kind = delta_copy_from_base;
      offset = v0 + v1 * 2 ^ 8 + v2 * 2 ^ 16 + v3 * 2 ^ 24;
      size = if copy_size == 0 then 0x10000 else copy_size;
    }
copy_chunk vals = record { kind = delta_copy_from_base; offset = 0; size = 0x10000 }

-- `skipBytes` on the bytes that are left.
skip_front : ℕ → Bytes → Result (Option Bytes × Bytes)
skip_front n r = if ltb (length r) n then err eof else ok (none, drop n r)

-- New data is kept if the pack is a stream, which cannot be read again; else it is skipped.
new_data : Bool → ℕ → Bytes → Result (Option Bytes × Bytes)
unfolding skip_front
new_data true n r = do (buf, r') ← read_full n r; ok (some buf, r')
new_data false n r = skip_front n r

abbrev pub add_chunk : ℕ → ℕ → DeltaChunk
add_chunk offset size = record { kind = delta_add_new; offset = offset; size = size }

-- The rest of a round of the loop, behind the instruction's byte: a chunk unless it is the reserved
-- instruction 0, the count of bytes read, and what is left.
pub instruction : Bool → ℕ → ℕ → Bytes → Result (Chunks × ℕ × Bytes)
unfolding read_vals copy_chunk new_data
instruction is_stream instr bytes_read r =
    if bit_and instr 0x80 == 0
    then (let add_size = bit_and instr 0x7f in
        if add_size == 0 then ok ([], bytes_read, r) else (do
          (buf, r') ← new_data is_stream add_size r
          ok ((add_chunk bytes_read add_size, buf) ∷ [], bytes_read + add_size, r')))
    else (do
      (vals, r') ← read_vals 7 0 instr r
      ok ((copy_chunk vals, none) ∷ [], bytes_read + (length r - length r'), r'))

-- `for bytesRead < por.size { … }`. Every round takes a byte, so there are no more rounds than bytes.
pub instructions : ℕ → Bool → ℕ → ℕ → Bytes → Result (Chunks × ℕ)
unfolding instruction
instructions zero is_stream size bytes_read r =
    if ltb bytes_read size then err eof else ok ([], bytes_read)
instructions (suc fuel) is_stream size bytes_read [] =
    if ltb bytes_read size then err eof else ok ([], bytes_read)
instructions (suc fuel) is_stream size bytes_read (instr ∷ r) =
    let round = (do
      (c, read', r') ← instruction is_stream instr (bytes_read + 1) r
      (cs, read'') ← instructions fuel is_stream size read' r'
      ok (c ++ cs, read'')) in
    if ltb bytes_read size then round else ok ([], bytes_read)

-- What `initDelta` finds in the data: the size of the object, the chunks, and the bytes read. The call of
-- `readIntoMemoryMaybe` behind its loop acts on the stream alone and is that of Delta/Stream.antt.
pub record DeltaPlan : Type 0 where
  pub recon_size : ℕ
  pub chunks : Chunks
  pub bytes_read : ℕ

unfoldable pub init_delta : Bool → ℕ → Bytes → Result DeltaPlan
unfolding read_var_size instructions
init_delta is_stream size content = do
  (base_size, r) ← read_var_size content
  (recon_size, r') ← read_var_size r
  let consumed = length content - length r'
  (chunks, bytes_read) ← instructions (length r') is_stream size consumed r'
  ok (record { recon_size = recon_size; chunks = chunks; bytes_read = bytes_read })

-- What a chunk stands for, and all of them: the object.
unfoldable pub chunk_bytes : Bytes → Bytes → DeltaChunkKind → ℕ → ℕ → Bytes
chunk_bytes content base delta_add_new offset size = take size (drop offset content)
chunk_bytes content base delta_copy_from_base offset size = take size (drop offset base)

abbrev pub wanted : Bytes → Bytes → DeltaChunk → Bytes
wanted content base c = chunk_bytes content base c.kind c.offset c.size

unfoldable pub expand : Bytes → Bytes → Chunks → Bytes
expand content base [] = []
expand content base ((c, d) ∷ cs) = wanted content base c ++ expand content base cs
