-- ===== src/Tests/Deltas.antt =====
-- A delta at a concrete base, with both readers in memory.
use go_repo_dojo.Base.{
  false, ◌+◌, ◌≤◌, take, drop, length-take, length-drop, take-length-take, ℕ, ◌≡◌, refl, none, some,
  List, [], ◌∷◌, ◌++◌, inl, true, arith, Bytes, codes, length, All, ok,
}
use go_repo_dojo.Object.{object_kind_blob}
use go_repo_dojo.Store.{MemoryObjectReader, reset, read, skip_bytes, position}
use go_repo_dojo.Readers.{ReaderOps, Reads, fill}
use go_repo_dojo.Readers.Memory.{memory_ops, Stands, memory_ops-Reads}
use go_repo_dojo.Delta.{
  DeltaPlan, delta_add_new, delta_copy_from_base, Chunks, chunk_bytes, init_delta, expand,
}
use go_repo_dojo.Delta.Instructions.{
  DeltaInstruction, insert_data, copy_base, encode_delta, apply_all, HasRoom, encode_all, encode,
  var_size, present, flags, apply_instruction,
}
use go_repo_dojo.Delta.Instructions.RoundTrip.{init_delta-encode_delta}
use go_repo_dojo.Delta.Stream.{
  ZlibOps, Stream, from_pack, in_memory, stream_ops, stream_read, reset_stream, read_full_stream,
  get_end_pos, read_into_memory_maybe,
}
use go_repo_dojo.Delta.Stream.Kept.{Inflates}
use go_repo_dojo.Delta.Caching.{init_cache}
use go_repo_dojo.Delta.Caching.Copies.{IsFit}
use go_repo_dojo.Delta.Caching.Filled.{init_cache-IsReady}
use go_repo_dojo.Delta.Reader.{Reader, start, reset_delta, read_delta, delta_ops}
use go_repo_dojo.Delta.Reader.Rounds.{IsReady, IsCached}
use go_repo_dojo.Delta.Reader.Reading.{ObjectAt}
use go_repo_dojo.Delta.Reader.Contract.{delta_ops-Reads}
use go_repo_dojo.Delta.Applied.{read_delta-apply_all}

abbrev base_text : Bytes
base_text = codes "hello world"

abbrev edits : List DeltaInstruction
edits = copy_base 0 6 ∷ insert_data (codes "brave ") ∷ copy_base 6 5 ∷ copy_base 0 5 ∷ []

abbrev edits_encoded : Bytes
edits_encoded = encode_delta 11 22 edits

edits_made : apply_all base_text edits ≡ codes "hello brave worldhello"
unfolding apply_all apply_instruction
edits_made = refl

-- The last copy leaves out every byte but that of the size.
edits_in_bytes :
    edits_encoded ≡ 11 ∷ 22 ∷ 0x90 ∷ 6 ∷ 6 ∷ codes "brave " ++ (0x91 ∷ 6 ∷ 5 ∷ 0x90 ∷ 5 ∷ [])
unfolding encode_delta encode_all encode var_size present flags go_repo_dojo.Pack.size_bytes
edits_in_bytes = refl

edits_have_room : All (HasRoom base_text) edits
unfolding HasRoom
edits_have_room = omega arith

abbrev blob_reader : Bytes → ℕ → MemoryObjectReader
blob_reader content p = record {
  header = record { kind = object_kind_blob; size = length content };
  content = content;
  pos = p;
}

init_delta-encode_delta_example :
    (plan : DeltaPlan) × (init_delta true (length edits_encoded) edits_encoded ≡ ok plan)
    × (plan.recon_size ≡ 22)
    × (plan.bytes_read ≡ length edits_encoded)
    × (expand edits_encoded base_text plan.chunks ≡ apply_all base_text edits)
    × All (IsFit edits_encoded base_text) plan.chunks
init_delta-encode_delta_example =
    init_delta-encode_delta true 11 22 base_text edits (omega arith) (omega arith) edits_have_room

-- A file whose zlib reader gives what is asked for, to the end.
abbrev zlib_ops : Bytes → ZlibOps
zlib_ops content = record {
  State = ℕ;
  read = λ n p. (take n (drop p content), none, p + length (take n (drop p content)));
  restart = λ p. ok 0;
  finish = λ p. ok 77;
  is_file = true;
}

zlib_ops-Inflates :
    (content : Bytes) → Inflates (zlib_ops content) content (λ z p. (z ≡ p) × (p ≤ length content))
zlib_ops-Inflates content = record {
  of_file = refl;
  restart_at = λ z p h. (0, refl, (refl, omega arith));
  finish_at = λ z h. (77, refl);
  read_at = λ z p n h some_left below.
      let b = take n (drop p content) in
      let len = length-take n (drop p content) in
      let more = length-drop p content in
      (
        b,
        none,
        p + length b,
        rw (h.0) refl,
        omega (arith, len, more),
        omega (arith, len),
        take-length-take n (drop p content),
        inl refl,
        (refl, omega (arith, len, more)),
      );
}

base-Stands : Stands base_text (blob_reader base_text 3) 3
unfolding Stands
base-Stands = (refl, refl, omega arith, omega arith)

abbrev made : Bytes
made = apply_all base_text edits

read_delta-apply_all_example :
    let Z = zlib_ops edits_encoded in
    let S = stream_ops Z in
    let n = length edits_encoded in
    (plan : DeltaPlan) × (s : Stream Z) × (cached : Chunks) × (b : MemoryObjectReader) × (r
      r' : Reader S memory_ops)
    × (init_delta false n edits_encoded ≡ ok plan)
    × (read_into_memory_maybe Z n (from_pack n n) ≡ ok s)
    × (init_cache memory_ops plan.chunks (blob_reader base_text 3) ≡ ok (cached, b))
    × (reset_delta S memory_ops (start S memory_ops plan cached s b) ≡ ok r)
    × (fill (read_delta S memory_ops) (length made) (length made) r [] ≡ ok (made, r'))
read_delta-apply_all_example =
    read_delta-apply_all (zlib_ops edits_encoded) memory_ops base_text edits 11 22
      (λ z p. (z ≡ p) × (p ≤ length edits_encoded)) (Stands base_text) (omega arith) (omega arith)
      edits_have_room (zlib_ops-Inflates edits_encoded) (memory_ops-Reads base_text)
      (length edits_encoded) (blob_reader base_text 3) 3 (refl, omega arith) base-Stands

-- The data of a small entry stands in memory afterwards.
kept_in_memory :
    read_into_memory_maybe (zlib_ops (codes "abc")) 3 (from_pack 3 3)
    ≡ ok (in_memory (codes "abc") 0 77)
unfolding read_into_memory_maybe reset_stream read_full_stream stream_read get_end_pos
kept_in_memory = refl

abbrev two_chunks : Chunks
two_chunks =
    (record { kind = delta_copy_from_base; offset = 0; size = 5 }, none)
    ∷ (record { kind = delta_add_new; offset = 2; size = 3 }, none)
    ∷ (record { kind = delta_copy_from_base; offset = 0; size = 3 }, none)
    ∷ []

two_chunks-IsFit : All (IsFit (codes "..new") base_text) two_chunks
unfolding IsFit chunk_bytes
two_chunks-IsFit = (
  (omega arith, refl, inl refl),
  ((omega arith, refl, inl refl), ((omega arith, refl, inl refl), tt)),
)

init_cache-IsReady_example :
    (cs : Chunks) × (s : MemoryObjectReader) × (q : ℕ) × (init_cache memory_ops two_chunks
        (blob_reader base_text 3)
      ≡ ok (cs, s))
    × All (IsReady (codes "..new") base_text) cs
    × (expand (codes "..new") base_text cs ≡ expand (codes "..new") base_text two_chunks)
    × Stands base_text s q
init_cache-IsReady_example =
    init_cache-IsReady (codes "..new") base_text memory_ops (Stands base_text)
      (memory_ops-Reads base_text) two_chunks (blob_reader base_text 3) 3 two_chunks-IsFit
      base-Stands

-- The second copy is cut from the first.
two_chunks_cached :
    init_cache memory_ops two_chunks (blob_reader base_text 3)
    ≡ ok (
      (record { kind = delta_copy_from_base; offset = 0; size = 5 }, some (codes "hello"))
          ∷ (record { kind = delta_add_new; offset = 2; size = 3 }, none)
          ∷ (record { kind = delta_copy_from_base; offset = 0; size = 3 }, some (codes "hel"))
          ∷ [],
      blob_reader base_text 5,
    )
unfolding init_cache fill go_repo_dojo.Readers.unless_failed go_repo_dojo.Readers.piece reset read
    skip_bytes position
two_chunks_cached = refl

-- The same chunks with both copies cached.
abbrev ready_chunks : Chunks
ready_chunks =
    (record { kind = delta_copy_from_base; offset = 0; size = 5 }, some (codes "hello"))
    ∷ (record { kind = delta_add_new; offset = 2; size = 3 }, none)
    ∷ (record { kind = delta_copy_from_base; offset = 0; size = 3 }, some (codes "hel"))
    ∷ []

ready_chunks-IsReady : All (IsReady (codes "..new") base_text) ready_chunks
unfolding IsCached chunk_bytes
ready_chunks-IsReady =
    ((omega arith, refl, refl), ((omega arith, refl, refl), ((omega arith, refl, refl), tt)))

abbrev ready_reader : Reader memory_ops memory_ops
ready_reader = record {
  stream = blob_reader (codes "..new") 1;
  rel_pos = 1;
  base_reader = blob_reader base_text 3;
  chunk_index = 1;
  chunk_position = 0;
  real_position = 5;
  chunks = ready_chunks;
}

new-Stands : Stands (codes "..new") (blob_reader (codes "..new") 1) 1
unfolding Stands
new-Stands = (refl, refl, omega arith, omega arith)

abbrev ReadyAt : Reader memory_ops memory_ops → ℕ → Type 0
ReadyAt =
    ObjectAt memory_ops memory_ops (codes "..new") base_text (Stands (codes "..new"))
      (Stands base_text) (memory_ops-Reads (codes "..new")) (memory_ops-Reads base_text)
      ready_chunks

delta_ops-Reads_example :
    ((r : Reader memory_ops memory_ops) × (reset_delta memory_ops memory_ops ready_reader ≡ ok r)
      × ReadyAt r 0)
    × Reads
        (delta_ops memory_ops memory_ops)
        (expand (codes "..new") base_text ready_chunks)
        ReadyAt
delta_ops-Reads_example =
    delta_ops-Reads memory_ops memory_ops (codes "..new") base_text (Stands (codes "..new"))
      (Stands base_text) (memory_ops-Reads (codes "..new")) (memory_ops-Reads base_text)
      ready_chunks ready_reader 1 3 refl ready_chunks-IsReady new-Stands base-Stands

memory_ops-Reads_example : Reads memory_ops base_text (Stands base_text)
memory_ops-Reads_example = memory_ops-Reads base_text
