-- ===== src/Delta/Applied.antt =====
-- From the encoding of a delta to the bytes that its reader gives.
use go_repo_dojo.Base.{
  not, ℕ, ◌^◌, ◌<◌, ◌≡◌, refl, ap, ◌∙◌, List, [], Bytes, length, take, take-all, All, ok, arith,
}
use go_repo_dojo.Readers.{ReaderOps, Reads, fill}
use go_repo_dojo.Readers.Loops.{fill_lem}
use go_repo_dojo.Delta.{DeltaPlan, Chunks, init_delta, expand}
use go_repo_dojo.Delta.Stream.{ZlibOps, Stream, from_pack, read_into_memory_maybe, stream_ops}
use go_repo_dojo.Delta.Stream.Kept.{
  Inflates, StreamAt, stream_ops-Reads, read_into_memory_maybe_lem,
}
use go_repo_dojo.Delta.Caching.{init_cache}
use go_repo_dojo.Delta.Caching.Filled.{init_cache-IsReady}
use go_repo_dojo.Delta.Reader.{Reader, start, reset_delta, read_delta, delta_ops}
use go_repo_dojo.Delta.Reader.Reading.{ObjectAt}
use go_repo_dojo.Delta.Reader.Contract.{delta_ops-Reads}
use go_repo_dojo.Delta.Instructions.{DeltaInstruction, encode_delta, apply_all, HasRoom}
use go_repo_dojo.Delta.Instructions.RoundTrip.{init_delta-encode_delta}

-- The loop reads the whole object.
read_whole :
    (S R : ReaderOps) (content base : Bytes) (SAt : S.State → ℕ → Type 0)
    (RAt : R.State → ℕ → Type 0) (stream_reads : Reads S content SAt)
    (base_reads : Reads R base RAt) (cached : Chunks) (object : Bytes) (r : Reader S R)
    → expand content base cached ≡ object
    → ObjectAt S R content base SAt RAt stream_reads base_reads cached r 0
    → Reads
        (delta_ops S R)
        (expand content base cached)
        (ObjectAt S R content base SAt RAt stream_reads base_reads cached)
    → (r' : Reader S R) × (fill (read_delta S R) (length object) (length object) r []
        ≡ ok (object, r'))
read_whole S R content base SAt RAt stream_reads base_reads cached object r same at law =
    let n = length object in
    let len : length (expand content base cached) ≡ n = ap (λ (b : Bytes). length b) same in
    let (r', e, at') =
      fill_lem (read_delta S R) (expand content base cached)
        (ObjectAt S R content base SAt RAt stream_reads base_reads cached) law.read_at n n 0 r [] at
        (omega (arith, len)) (omega arith) in
    (r', e ∙ ap (λ (b : Bytes). ok (b, r')) (ap (take n) same ∙ take-all n object (omega arith)))

-- Take the encoding of a delta whose insertions have 1 to 127 bytes, whose copies have 1 to 2 ^ 24 - 1
-- bytes, begin below 2 ^ 32 and lie in the base, and whose sizes are below 2 ^ 64; an entry of a pack
-- file whose data is this encoding, read to its end; and a reader that gives the base. Then `initDelta`
-- with its `readIntoMemoryMaybe` and `initCache` succeed, and after a reset a loop over `readDelta` for
-- as many bytes as the instructions make gives what they make of the base.
pub read_delta-apply_all :
    (Z : ZlibOps) (R : ReaderOps) (base : Bytes) (is : List DeltaInstruction)
    (base_size recon_size : ℕ) (ZAt : Z.State → ℕ → Type 0) (RAt : R.State → ℕ → Type 0)
    → let content = encode_delta base_size recon_size is in
      let object = apply_all base is in
      let S = stream_ops Z in
      base_size < 2 ^ 64
      → recon_size < 2 ^ 64
      → All (HasRoom base) is
      → Inflates Z content ZAt
      → Reads R base RAt
      → (z : Z.State) (b : R.State) (q : ℕ) → ZAt z (length content)
      → RAt b q
      → (plan : DeltaPlan) × (s : Stream Z) × (cached : Chunks) × (b' : R.State) × (r r' : Reader S
          R)
        × (init_delta (not Z.is_file) (length content) content ≡ ok plan)
        × (read_into_memory_maybe Z (length content) (from_pack z (length content)) ≡ ok s)
        × (init_cache R plan.chunks b ≡ ok (cached, b'))
        × (reset_delta S R (start S R plan cached s b') ≡ ok r)
        × (fill (read_delta S R) (length object) (length object) r [] ≡ ok (object, r'))
unfolding start
read_delta-apply_all Z R base is base_size recon_size ZAt RAt hb hr h inflates base_reads z b q at_z
      at_b =
    let content = encode_delta base_size recon_size is in
    let S = stream_ops Z in
    let SAt = StreamAt Z content ZAt inflates in
    let stream_reads = stream_ops-Reads Z content ZAt inflates in
    let (plan, e1, size, count, same, fit) =
      init_delta-encode_delta (not Z.is_file) base_size recon_size base is hb hr h in
    let (s, p, e0, at_s) =
      read_into_memory_maybe_lem Z content ZAt inflates (from_pack z (length content))
        (refl, omega arith, at_z) in
    let (cached, b1, q1, e2, ready, same2, at1) =
      init_cache-IsReady content base R RAt base_reads plan.chunks b q fit at_b in
    let ((r, e3, at3), law) =
      delta_ops-Reads S R content base SAt RAt stream_reads base_reads cached
        (start S R plan cached s b1) p q1 refl ready at_s at1 in
    let (r', e4) =
      read_whole S R content base SAt RAt stream_reads base_reads cached (apply_all base is) r
        (same2 ∙ same) at3 law in
    (plan, s, cached, b1, r, r', e1, e0, e2, e3, e4)
