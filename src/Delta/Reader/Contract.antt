-- ===== src/Delta/Reader/Contract.antt =====
-- The reader of a delta keeps the contract of `ObjectReader`.
use go_repo_dojo.Base.{
  ℕ, ◌≡◌, refl, inl, none, arith, Bytes, length-take, length-drop, take, drop, take-length-take,
  All, ok,
}
use go_repo_dojo.Readers.{ReadAt, ReaderOps, Reads}
use go_repo_dojo.Readers.Loops.{skip_loop_lem}
use go_repo_dojo.Delta.{Chunks, expand}
use go_repo_dojo.Delta.Reader.Content.{Within-zero}
use go_repo_dojo.Delta.Reader.Rounds.{IsReady}
use go_repo_dojo.Delta.Reader.{Reader, read_delta, delta_ops, reset_delta, delta_position}
use go_repo_dojo.Delta.Reader.Reading.{ObjectAt, read_delta_lem}

module _ (S R : ReaderOps) (content base : Bytes) (SAt : S.State → ℕ → Type 0)
    (RAt : R.State → ℕ → Type 0) (stream_reads : Reads S content SAt)
    (base_reads : Reads R base RAt) (chunks : Chunks) where
  abbrev pub At : Reader S R → ℕ → Type 0
  At = ObjectAt S R content base SAt RAt stream_reads base_reads chunks

  read_delta-At : ReadAt (read_delta S R) (expand content base chunks) At
  read_delta-At r p n h some_wanted before_end =
      let (r', e, at) =
        read_delta_lem S R content base SAt RAt stream_reads base_reads chunks n p r h some_wanted
          before_end in
      let size = length-take n (drop p (expand content base chunks)) in
      let b = take n (drop p (expand content base chunks)) in
      (
        b,
        none,
        r',
        e,
        omega (arith, size, length-drop p (expand content base chunks)),
        omega (arith, size),
        take-length-take n (drop p (expand content base chunks)),
        inl refl,
        at,
      )

  -- Both readers are set back, from wherever they stand.
  reset_delta_lem :
      (r : Reader S R) (p q : ℕ)
      → r.chunks ≡ chunks
      → All (IsReady content base) r.chunks
      → SAt r.stream p
      → RAt r.base_reader q
      → (r' : Reader S R) × (reset_delta S R r ≡ ok r') × At r' 0
  unfolding ObjectAt reset_delta
  reset_delta_lem r p q same ready h k =
      let (s, es, at_s) = stream_reads.reset_at r.stream p h in
      let (b, eb, at_b) = base_reads.reset_at r.base_reader q k in
      (
        record {
          stream = s;
          rel_pos = 0;
          base_reader = b;
          chunk_index = 0;
          chunk_position = 0;
          real_position = 0;
          chunks = r.chunks;
        },
        rw (es, eb) refl,
        (
          same,
          record {
            ready = ready;
            stream_at = at_s;
            base_pos = 0;
            base_at = at_b;
            stands = refl;
            within = Within-zero S R content base SAt RAt stream_reads base_reads r.chunks ready;
            position = refl;
            inside = omega arith;
          },
        ),
      )

  reset_delta-At :
      (r : Reader S R) (p : ℕ) → At r p → (r' : Reader S R) × (reset_delta S R r ≡ ok r') × At r' 0
  unfolding ObjectAt
  reset_delta-At r p (same, h) =
      reset_delta_lem r r.rel_pos h.base_pos same h.ready h.stream_at h.base_at

  pub delta_ops-At : Reads (delta_ops S R) (expand content base chunks) At
  delta_ops-At = record {
    reset_at = reset_delta-At;
    position_at = λ r p h. unfold ObjectAt delta_position in h.1.position;
    skip_at = λ r p n h fits.
        skip_loop_lem (read_delta S R) (expand content base chunks) At read_delta-At n n p r h fits
          (omega arith);
    read_at = read_delta-At;
  }

  -- Take a reader of chunks that are ready, each copy cached and each insertion cached or in the stream;
  -- its stream's reader gives the instructions' data and its base's reader gives the base, wherever the
  -- two stand. Then it can be reset, and from there on it gives the object that the chunks stand for: it
  -- stands where the contract says after any reset, skip and read, and every read before the end gives
  -- the bytes that stand there.
  pub delta_ops-Reads :
      (r : Reader S R) (p q : ℕ)
      → r.chunks ≡ chunks
      → All (IsReady content base) r.chunks
      → SAt r.stream p
      → RAt r.base_reader q
      → ((r' : Reader S R) × (reset_delta S R r ≡ ok r') × At r' 0)
        × Reads (delta_ops S R) (expand content base chunks) At
  delta_ops-Reads r p q same ready h k = (reset_delta_lem r p q same ready h k, delta_ops-At)
