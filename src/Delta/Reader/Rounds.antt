-- ===== src/Delta/Reader/Rounds.antt =====
-- One round of `readDelta`: the next bytes of a chunk, from its cache or from the stream.
use go_repo_dojo.Base.{
  ℕ, zero, suc, ◌+◌, ◌-◌, ◌≤◌, ◌<◌, ◌≡◌, refl, sym, ap, ◌∙◌, subst, inl, inr, Bool-cases, Option,
  none, some, [], ◌∷◌, arith, ltb, if◌then◌else◌, Bytes, length, length-take, length-drop, take,
  drop, drop-drop, take-take, take-length-take, Error, ok,
}
use native.Mathlib.Decide.{dec_lt}
use go_repo_dojo.Readers.{ReaderOps, Reads, Goes}
use go_repo_dojo.Delta.{
  DeltaChunkKind, delta_add_new, delta_copy_from_base, DeltaChunk, chunk_bytes, wanted,
}
use go_repo_dojo.Delta.Reader.{Reader, seek, seek_back, keep_read, read_stream, read_chunk}

-- What a chunk's cache may hold: its bytes, or nothing if they can be read from the stream.
unfoldable pub IsCached : Bytes → Bytes → DeltaChunk → Option Bytes → Type 0
IsCached content base c none = c.kind ≡ delta_add_new
IsCached content base c (some b) = b ≡ wanted content base c

-- A chunk with its cache is ready to be read: it is not empty, and lies in the stream or in the base.
abbrev pub IsReady : Bytes → Bytes → DeltaChunk × Option Bytes → Type 0
IsReady content base (c, d) =
    (0 < c.size) × (length (wanted content base c) ≡ c.size) × IsCached content base c d

take-drop-take :
    (k q n : ℕ) (xs : Bytes) → q + k ≤ n → take k (drop q (take n xs)) ≡ take k (drop q xs)
take-drop-take k zero n xs h = take-take k n xs (omega arith)
take-drop-take k (suc q) zero xs h = absurd (omega arith)
take-drop-take k (suc q) (suc n) [] h = refl
take-drop-take k (suc q) (suc n) (x ∷ xs) h = take-drop-take k q n xs (omega arith)

module _ (S R : ReaderOps) (content base : Bytes) (SAt : S.State → ℕ → Type 0)
    (stream_reads : Reads S content SAt) where
  seek_forward :
      (offset q : ℕ) (s : S.State)
      → SAt s q
      → q ≤ offset
      → offset ≤ length content
      → (s' : S.State) × ((if ltb q offset then S.skip_bytes (offset - q) s else ok s) ≡ ok s')
        × SAt s' offset
  seek_forward offset q s h low fits = elim (Bool-cases (ltb q offset)) [
    | inl t ↦
        let (s', e, at) = stream_reads.skip_at s q (offset - q) h (omega arith) in
        (s', rw t e, subst (SAt s') (omega arith) at)
    | inr t ↦ (s, rw t refl, subst (SAt s) (ground arith) h)
  ]

  seek_lem :
      (offset q : ℕ) (s : S.State)
      → SAt s q
      → offset ≤ length content
      → (s' : S.State) × (seek S R offset q s ≡ ok s') × SAt s' offset
  unfolding seek seek_back
  seek_lem offset q s h fits = elim (Bool-cases (ltb offset q)) [
    | inl back ↦
        let (s0, e0, at0) = stream_reads.reset_at s q h in
        let (s', e, at) = seek_forward offset 0 s0 at0 (omega arith) fits in
        (s', rw (back, e0) e, at)
    | inr on ↦ let (s', e, at) = seek_forward offset q s h (ground arith) fits in (s', rw on e, at)
  ]

  -- A round gives the next bytes of the chunk, and changes nothing but the stream.
  abbrev pub Round : Reader S R → DeltaChunk → ℕ → Bytes × Option Error × Reader S R → Type 0
  Round r c amount result =
      (b : Bytes) × (s : S.State) × (q : ℕ) × (result
        ≡ (b, none, record r { stream = s; rel_pos = q }))
      × SAt s q
      × (0 < length b)
      × (length b ≤ amount)
      × (b ≡ take (length b) (drop r.chunk_position (wanted content base c)))

  keep_read_lem :
      (offset amount : ℕ) (r : Reader S R) (s : S.State)
      → SAt s offset
      → 0 < amount
      → offset < length content
      → (b : Bytes) × (s' : S.State) × (keep_read S R offset r (S.read amount s)
          ≡ (b, none, record r { stream = s'; rel_pos = offset + length b }))
        × SAt s' (offset + length b)
        × (0 < length b)
        × (length b ≤ amount)
        × (b ≡ take (length b) (drop offset content))
  unfolding keep_read
  keep_read_lem offset amount r s h pos below =
      let (b, e, s', eq, some_read, high, eb, goes, at) =
        stream_reads.read_at s offset amount h pos below in
      (b, s', kept b e s' eq goes, at, some_read, high, eb)
    where
      kept :
          (b : Bytes) (e : Option Error) (s' : S.State)
          → S.read amount s ≡ (b, e, s')
          → Goes e
          → keep_read S R offset r (S.read amount s)
            ≡ (b, none, record r { stream = s'; rel_pos = offset + length b })
      kept b e s' eq (inl n) = rw (eq, n) refl
      kept b e s' eq (inr n) = rw (eq, n) refl

  abbrev FromStream : ℕ → ℕ → Reader S R → Bytes × Option Error × Reader S R → Type 0
  FromStream offset amount r result =
      (b : Bytes) × (s : S.State) × (result
        ≡ (b, none, record r { stream = s; rel_pos = offset + length b }))
      × SAt s (offset + length b)
      × (0 < length b)
      × (length b ≤ amount)
      × (b ≡ take (length b) (drop offset content))

  read_stream_lem :
      (offset amount : ℕ) (r : Reader S R)
      → SAt r.stream r.rel_pos
      → 0 < amount
      → offset < length content
      → FromStream offset amount r (read_stream S R offset amount r)
  unfolding read_stream
  read_stream_lem offset amount r h pos below =
      let (s1, e1, at1) = seek_lem offset r.rel_pos r.stream h (omega arith) in
      from_ok s1 e1 (keep_read_lem offset amount r s1 at1 pos below)
    where
      from_ok :
          (s1 : S.State)
          → seek S R offset r.rel_pos r.stream ≡ ok s1
          → FromStream offset amount r (keep_read S R offset r (S.read amount s1))
          → FromStream offset amount r (read_stream S R offset amount r)
      from_ok s1 e1 got = rw (e1, read_stream) got

  in_stream :
      (offset q size : ℕ)
      → length (take size (drop offset content)) ≡ size
      → q < size
      → offset + q < length content
  in_stream offset q size e h =
      omega (arith, e, length-take size (drop offset content), length-drop offset content)

  chunk_front :
      (offset q size : ℕ) (b : Bytes)
      → b ≡ take (length b) (drop (offset + q) content)
      → length b ≤ size - q
      → b ≡ take (length b) (drop q (take size (drop offset content)))
  chunk_front offset q size b e h =
      e
      ∙ ap (take (length b)) (sym (drop-drop offset q (offset + q) content refl))
      ∙ sym (fits (dec_lt q size))
    where
      fits :
          Dec (q < size)
          → take (length b) (drop q (take size (drop offset content)))
            ≡ take (length b) (drop q (drop offset content))
      fits (yes p) = take-drop-take (length b) q size (drop offset content) (omega arith)
      fits (no p) = let z : length b ≡ 0 = omega arith in rw z refl

  pub read_chunk_lem :
      (r : Reader S R) (kind : DeltaChunkKind) (offset size : ℕ) (d : Option Bytes) (amount : ℕ)
      → SAt r.stream r.rel_pos
      → IsReady content base (record { kind = kind; offset = offset; size = size }, d)
      → r.chunk_position < size
      → 0 < amount
      → amount ≤ size - r.chunk_position
      → Round r
          (record { kind = kind; offset = offset; size = size })
          amount
          (read_chunk S R kind offset d amount r)
  unfolding read_chunk IsCached chunk_bytes read_stream
  read_chunk_lem r kind offset size (some b) amount at (pos, len, cached) below some_wanted fits =
      let w = chunk_bytes content base kind offset size in
      let t = length-take amount (drop r.chunk_position w) in
      let l = length-drop r.chunk_position w in
      (
        take amount (drop r.chunk_position w),
        r.stream,
        r.rel_pos,
        ap (λ (x : Bytes). (take amount (drop r.chunk_position x), none, r)) cached,
        at,
        omega (arith, t, l, len),
        omega (arith, t),
        take-length-take amount (drop r.chunk_position w),
      )
  read_chunk_lem r delta_copy_from_base offset size none amount at (pos, len, cached) below
        some_wanted fits =
      absurd (cc cached)
  read_chunk_lem r delta_add_new offset size none amount at (pos, len, cached) below some_wanted
        fits =
      let q = r.chunk_position in
      let (b, s2, e2, at2, some_read, high, eb) =
        read_stream_lem (offset + q) amount r at some_wanted (in_stream offset q size len below) in
      (
        b,
        s2,
        offset + q + length b,
        e2,
        at2,
        some_read,
        high,
        chunk_front offset q size b eb (omega arith),
      )
