-- ===== src/Delta/Reader.antt =====
-- pack.go: `readDelta` and the other methods of a reader whose object is a delta.
pub mod Rounds
pub mod Content
pub mod Reading
pub mod Contract
use go_repo_dojo.Base.{
  ℕ, zero, suc, ◌+◌, ◌-◌, Bool, true, false, ◌&&◌, Option, none, some, List, [], ◌∷◌, ◌++◌, ◌==◌,
  ltb, leb, if◌then◌else◌, Bytes, length, take, drop, get_elem?, Error, Result, ok, err, ◌>>=◌, eof,
  invalid_delta_cache, stuck,
}
use go_repo_dojo.Readers.{ReaderOps, skip_loop}
use go_repo_dojo.Delta.{
  DeltaChunkKind, delta_add_new, delta_copy_from_base, DeltaChunk, Chunks, DeltaPlan,
}

-- `PackObjectReader` of the delta kind with its `deltaState`, over the states of the decompressed
-- stream and of the base's reader.
pub record DeltaReader (Stream Base : Type 0) : Type 0 where
  pub stream : Stream
  pub rel_pos : ℕ
  pub base_reader : Base
  pub chunk_index : ℕ
  pub chunk_position : ℕ
  pub real_position : ℕ
  pub chunks : Chunks

-- After the last chunk's end the next one begins.
advance_from : ℕ → ℕ → ℕ → ℕ × ℕ
advance_from size index position = if leb size position then (suc index, 0) else (index, position)

pub least : ℕ → ℕ → ℕ
least a b = if ltb a b then a else b

module _ (S R : ReaderOps) where
  abbrev pub Reader : Type 0
  Reader = DeltaReader S.State R.State

  -- The state that `initDelta` leaves, with the stream as `readIntoMemoryMaybe` leaves it, and with the
  -- chunks that `initCache` filled.
  unfoldable pub start : DeltaPlan → Chunks → S.State → R.State → Reader
  start plan cached s base = record {
    stream = s;
    rel_pos = plan.bytes_read;
    base_reader = base;
    chunk_index = 0;
    chunk_position = 0;
    real_position = plan.bytes_read;
    chunks = cached;
  }

  unfoldable pub reset_delta : Reader → Result Reader
  reset_delta r = do
    s ← S.reset r.stream
    base ← R.reset r.base_reader
    ok (record {
      stream = s;
      rel_pos = 0;
      base_reader = base;
      chunk_index = 0;
      chunk_position = 0;
      real_position = 0;
      chunks = r.chunks;
    })

  unfoldable pub delta_position : Reader → ℕ
  delta_position r = r.real_position

  -- Stands the stream at an offset: back to the start if the stream is past it, then on. If that fails
  -- the state is the one from before; the code does not read on after an error.
  seek_back : ℕ → ℕ → S.State → Result (ℕ × S.State)
  seek_back offset rel_pos s =
      if ltb offset rel_pos then (do s' ← S.reset s; ok (0, s')) else ok (rel_pos, s)

  seek : ℕ → ℕ → S.State → Result S.State
  unfolding seek_back
  seek offset rel_pos s = do
    (pos, s') ← seek_back offset rel_pos s
    if ltb pos offset then S.skip_bytes (offset - pos) s' else ok s'

  -- `if err != nil && err != io.EOF { return bytesRead, err }`
  keep_read : ℕ → Reader → Bytes × Option Error × S.State → Bytes × Option Error × Reader
  keep_read offset r (b, none, s) = (b, none, record r { stream = s; rel_pos = offset + length b })
  keep_read offset r (b, some eof, s) =
      (b, none, record r { stream = s; rel_pos = offset + length b })
  keep_read offset r (b, some e, s) = ([], some e, record r { stream = s })

  read_stream : ℕ → ℕ → Reader → Bytes × Option Error × Reader
  unfolding seek keep_read
  read_stream offset amount r = elim (seek offset r.rel_pos r.stream) [
    | ok s ↦ keep_read offset r (S.read amount s)
    | err e ↦ ([], some e, r)
  ]

  -- The bytes of one round, from the cache or from the stream.
  pub read_chunk : DeltaChunkKind → ℕ → Option Bytes → ℕ → Reader → Bytes × Option Error × Reader
  unfolding read_stream
  read_chunk kind offset (some cached) amount r =
      (take amount (drop r.chunk_position cached), none, r)
  read_chunk delta_add_new offset none amount r = read_stream (offset + r.chunk_position) amount r
  read_chunk delta_copy_from_base offset none amount r = ([], some invalid_delta_cache, r)

  pub move : ℕ → ℕ → Reader → Reader
  unfolding advance_from
  move size n r =
      let (index, position) = advance_from size r.chunk_index (r.chunk_position + n) in
      record r {
        chunk_index = index;
        chunk_position = position;
        real_position = r.real_position + n;
      }

  unless_error :
      Bytes
      → Bytes × Option Error × Reader
      → (Bytes → Reader → Bytes × Option Error × Reader)
      → Bytes × Option Error × Reader
  unless_error out (b, some e, r) next = (out, some e, r)
  unless_error out (b, none, r) next = next b r

  -- `for bytesRead < len(p) { … }`, where `left` bytes of `p` are still free. Every round gives a byte
  -- at least, so there are no more rounds than bytes.
  read_loop : ℕ → ℕ → Bytes → Reader → Bytes × Option Error × Reader
  unfolding read_chunk move least unless_error
  read_loop zero left out r = (out, if left == 0 then none else some stuck, r)
  read_loop (suc fuel) left out r = elim (get_elem? r.chunks r.chunk_index) [
    | none ↦ (out, none, r)
    | some (c, cached) ↦
        let amount = least left (c.size - r.chunk_position) in
        let next = λ (b : Bytes) (r' : Reader).
          read_loop fuel (left - length b) (out ++ b) (move c.size (length b) r') in
        if left == 0
        then (out, none, r)
        else unless_error out (read_chunk c.kind c.offset cached amount r) next
  ]

  -- Nothing was read and no chunk is left.
  at_end : Bytes × Option Error × Reader → Bytes × Option Error × Reader
  at_end ([], none, r) =
      if leb (length r.chunks) r.chunk_index then ([], some eof, r) else ([], none, r)
  at_end (b, e, r) = (b, e, r)

  unfoldable pub read_delta : ℕ → Reader → Bytes × Option Error × Reader
  unfolding read_loop at_end
  read_delta n r = at_end (read_loop n n [] r)

  -- The delta's reader as an `ObjectReader`. `SkipBytes` reads into a buffer of 512 bytes.
  abbrev pub delta_ops : ReaderOps
  delta_ops = record {
    State = Reader;
    reset = reset_delta;
    position = delta_position;
    skip_bytes = λ n r. skip_loop read_delta n n r;
    read = read_delta;
  }
