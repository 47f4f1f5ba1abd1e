-- ===== src/Delta/Stream.antt =====
-- pack.go: `packObjectStream`, the decompressed data of an entry. The reader of package zlib on the
-- pack's file, or on the stream that a pack comes from, is a parameter; its contract is that of
-- `io.Reader` on the entry's data.
pub mod Kept
use go_repo_dojo.Base.{
  ℕ, zero, suc, ◌+◌, ◌-◌, Bool, true, false, Option, none, some, [], ◌∷◌, ◌++◌, ◌==◌, ltb, leb,
  if◌then◌else◌, Bytes, length, take, drop, Error, Result, ok, err, ◌>>=◌, eof, unexpected_eof,
  stuck,
}
use go_repo_dojo.Readers.{ReaderOps, skip_loop}

-- `Read` of the zlib reader; `SeekTo(startPos)` with a new zlib reader; what is left to the end of the
-- data read and dropped, with the position in the pack behind it. A pack that comes as a stream has
-- a `restart` that fails, since its `SeekTo` does.
pub record ZlibOps : Type 1 where
  pub State : Type 0
  pub read : ℕ → State → Bytes × Option Error × State
  pub restart : State → Result State
  pub finish : State → Result ℕ
  pub is_file : Bool

-- A stream from the pack, or `isMem` with `memBuf`, `memPos` and `endPos`. The number beside the zlib
-- reader counts what it gave since it was made. The code keeps no such count and never asks for it.
pub data PackObjectStream (Z : Type 0) : Type 0 where
  from_pack : Z → ℕ → PackObjectStream Z
  in_memory : Bytes → ℕ → ℕ → PackObjectStream Z

abbrev pub max_buf : ℕ
max_buf = 50000000

module _ (Z : ZlibOps) where
  abbrev pub Stream : Type 0
  Stream = PackObjectStream Z.State

  counted : ℕ → Bytes × Option Error × Z.State → Bytes × Option Error × Stream
  counted p (b, e, z) = (b, e, from_pack z (p + length b))

  unfoldable pub stream_read : ℕ → Stream → Bytes × Option Error × Stream
  unfolding counted
  stream_read n (from_pack z p) = counted p (Z.read n z)
  stream_read n (in_memory buf pos end_pos) =
      let b = take n (drop pos buf) in
      if leb (length buf) pos
      then ([], some eof, in_memory buf pos end_pos)
      else (b, none, in_memory buf (pos + length b) end_pos)

  unfoldable pub reset_stream : Stream → Result Stream
  reset_stream (from_pack z p) = do z' ← Z.restart z; ok (from_pack z' 0)
  reset_stream (in_memory buf pos end_pos) = ok (in_memory buf 0 end_pos)

  unfoldable pub get_end_pos : Stream → Result ℕ
  get_end_pos (from_pack z p) = Z.finish z
  get_end_pos (in_memory buf pos end_pos) = ok end_pos

  -- `io.ReadFull`, with `out` in the buffer so far: it goes on while the buffer is not full and no
  -- error came. A reader that gives something at every call needs no more rounds than bytes.
  short : Bytes → Error → Error
  short [] e = e
  short (c ∷ out) eof = unexpected_eof
  short (c ∷ out) e = e

  after_error : Bytes → Option Error → Result (Bytes × Stream) → Result (Bytes × Stream)
  unfolding short
  after_error out none next = next
  after_error out (some e) next = err (short out e)

  pub after_piece :
      ℕ
      → Bytes
      → Bytes × Option Error × Stream
      → (ℕ → Bytes → Stream → Result (Bytes × Stream))
      → Result (Bytes × Stream)
  unfolding after_error
  after_piece left out (b, e, s) next =
      if leb left (length b)
      then ok (out ++ b, s)
      else after_error (out ++ b) e (next (left - length b) (out ++ b) s)

  unfoldable pub read_full_stream : ℕ → ℕ → Bytes → Stream → Result (Bytes × Stream)
  unfolding after_piece after_error
  read_full_stream zero left out s = if left == 0 then ok (out, s) else err stuck
  read_full_stream (suc fuel) left out s =
      let next = λ (left' : ℕ) (out' : Bytes) (s' : Stream). read_full_stream fuel left' out' s' in
      if left == 0 then ok (out, s) else after_piece left out (stream_read left s) next

  -- The data of an entry of a file, if it is not too large, is read again and kept.
  unfoldable pub read_into_memory_maybe : ℕ → Stream → Result Stream
  read_into_memory_maybe size (in_memory buf pos end_pos) = ok (in_memory buf pos end_pos)
  read_into_memory_maybe size (from_pack z p) =
      let keep = (do
        s ← reset_stream (from_pack z p)
        (buf, s') ← read_full_stream size size [] s
        end_pos ← get_end_pos s'
        ok (in_memory buf 0 end_pos)) in
      if Z.is_file
      then (if ltb max_buf size then ok (from_pack z p) else keep)
      else ok (from_pack z p)

  unfoldable pub stream_position : Stream → ℕ
  stream_position (from_pack z p) = p
  stream_position (in_memory buf pos end_pos) = pos

  -- The stream as the delta's reader uses it.
  abbrev pub stream_ops : ReaderOps
  stream_ops = record {
    State = Stream;
    reset = reset_stream;
    position = stream_position;
    skip_bytes = λ n s. skip_loop stream_read n n s;
    read = stream_read;
  }
