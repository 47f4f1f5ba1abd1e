-- ===== src/Delta/Reader/Reading.antt =====
-- `readDelta` gives the object's next bytes.
use go_repo_dojo.Base.{
  ℕ, zero, suc, ◌+◌, ◌-◌, ◌≤◌, ◌<◌, ◌≡◌, refl, sym, ap, ◌∙◌, subst, inl, inr, Bool-cases, false,
  Option, none, some, [], ◌∷◌, ◌++◌, append-nil, append_assoc, arith, ◌==◌, Bytes, length,
  length-append, length-take, length-drop, take, take-nil, drop, drop-get_elem?,
  drop-get_elem?-none, get_elem?, Error,
}
use go_repo_dojo.Readers.{ReaderOps, Reads}
use go_repo_dojo.Readers.Loops.{take_read}
use go_repo_dojo.Delta.{DeltaChunk, Chunks, wanted, expand}
use go_repo_dojo.Delta.Reader.Content.{
  DeltaAt, Within, move_lem, first-IsReady, below, front, least_bounds,
}
use go_repo_dojo.Delta.Reader.Rounds.{Round, read_chunk_lem}
use go_repo_dojo.Delta.Reader.{
  Reader, read_chunk, move, least, unless_error, read_loop, at_end, read_delta,
}

module _ (S R : ReaderOps) (content base : Bytes) (SAt : S.State → ℕ → Type 0)
    (RAt : R.State → ℕ → Type 0) (stream_reads : Reads S content SAt)
    (base_reads : Reads R base RAt) (chunks : Chunks) where
  -- A reader of these chunks stands at position `p` of their object.
  unfoldable pub ObjectAt : Reader S R → ℕ → Type 0
  ObjectAt r p = (r.chunks ≡ chunks) × DeltaAt S R content base SAt RAt stream_reads base_reads r p

  abbrev pub whole : Bytes
  whole = expand content base chunks

  -- What the loop comes to when `left` bytes are still wanted.
  abbrev Loop : ℕ → ℕ → Bytes → Bytes × Option Error × Reader S R → Type 0
  Loop left p out result =
      (r : Reader S R) × (result ≡ (out ++ take left (drop p whole), none, r))
      × ObjectAt r (p + length (take left (drop p whole)))

  -- Nothing more is read.
  stop :
      (left p : ℕ) (out : Bytes) (r : Reader S R)
      → ObjectAt r p
      → take left (drop p whole) ≡ []
      → Loop left p out (out, none, r)
  stop left p out r h e = rw e (
    r,
    ap (λ (b : Bytes). (b, none, r)) (sym (append-nil out)),
    subst (ObjectAt r) (omega arith) h,
  )

  exhausted :
      (r : Reader S R) (p : ℕ)
      → ObjectAt r p
      → get_elem? r.chunks r.chunk_index ≡ none
      → drop p whole ≡ []
  unfolding ObjectAt expand Within
  exhausted r p (same, h) e =
      let gone = drop-get_elem?-none r.chunks r.chunk_index e in
      ap (λ (cs : Chunks). drop p (expand content base cs)) (sym same)
      ∙ h.stands
      ∙ ap (λ (cs : Chunks). drop r.chunk_position (expand content base cs)) gone
      ∙ ap (λ (q : ℕ). drop q []) (subst (Within r.chunk_position) gone h.within)

  -- The rest of the loop behind a round that gave `b`.
  joined :
      (left p : ℕ) (out b : Bytes) (result : Bytes × Option Error × Reader S R)
      → b ≡ take (length b) (drop p whole)
      → length b ≤ left
      → Loop (left - length b) (p + length b) (out ++ b) result
      → Loop left p out result
  joined left p out b result eb fits (r, e, at) =
      let rest = take (left - length b) (drop (p + length b) whole) in
      let all = take_read p left b whole eb fits in
      (
        r,
        e
            ∙ ap (λ (t : Bytes). (t, none, r))
                (append_assoc out b rest ∙ ap (λ (t : Bytes). out ++ t) all),
        subst (ObjectAt r) (omega (arith, ap (λ (t : Bytes). length t) all, length-append b rest))
            at,
      )

  moved_on :
      (r : Reader S R) (p : ℕ) (c : DeltaChunk) (d : Option Bytes) (n : ℕ) (s : S.State) (q : ℕ)
      → ObjectAt r p
      → get_elem? r.chunks r.chunk_index ≡ some (c, d)
      → SAt s q
      → n ≤ c.size - r.chunk_position
      → ObjectAt (move S R c.size n (record r { stream = s; rel_pos = q })) (p + n)
  unfolding ObjectAt move
  moved_on r p c d n s q (same, h) e at fits = (
    same,
    move_lem S R content base SAt RAt stream_reads base_reads r p h c d
        (drop-get_elem? r.chunks r.chunk_index e) n s q at fits,
  )

  -- The round for the chunk in turn, of at least one byte.
  round :
      (left p : ℕ) (r : Reader S R) (c : DeltaChunk) (d : Option Bytes)
      → ObjectAt r p
      → get_elem? r.chunks r.chunk_index ≡ some (c, d)
      → 0 < left
      → let amount = least left (c.size - r.chunk_position) in
        (amount ≤ left)
        × (amount ≤ c.size - r.chunk_position)
        × Round S R content base SAt stream_reads r c amount
            (read_chunk S R c.kind c.offset d amount r)
        × ((b : Bytes)
            → b ≡ take (length b) (drop r.chunk_position (wanted content base c))
            → length b ≤ amount
            → b ≡ take (length b) (drop p whole))
  unfolding ObjectAt
  round left p r c d (same, h) e some_left =
      let first = drop-get_elem? r.chunks r.chunk_index e in
      let below_size = below S R content base SAt RAt stream_reads base_reads r p h c d first in
      let (low, high, fits) =
        least_bounds left (c.size - r.chunk_position) some_left (omega arith) in
      (
        high,
        fits,
        read_chunk_lem S R content base SAt stream_reads r c.kind c.offset c.size d
            (least left (c.size - r.chunk_position)) h.stream_at
            (first-IsReady S R content base SAt RAt stream_reads base_reads r p h c d first)
            below_size low fits,
        λ b eb within.
            front S R content base SAt RAt stream_reads base_reads r p h c d first b eb
              (omega arith)
            ∙ ap (λ (cs : Chunks). take (length b) (drop p (expand content base cs))) same,
      )

  abbrev Done : ℕ → Type 0
  Done fuel =
      (left p : ℕ) (out : Bytes) (r : Reader S R)
      → ObjectAt r p
      → left ≤ fuel
      → Loop left p out (read_loop S R fuel left out r)

  -- A round and then the rest.
  at_chunk :
      (fuel left p : ℕ) (out : Bytes) (r : Reader S R) (c : DeltaChunk) (d : Option Bytes)
      → Done fuel
      → ObjectAt r p
      → left ≤ suc fuel
      → get_elem? r.chunks r.chunk_index ≡ some (c, d)
      → (left == 0) ≡ false
      → Loop left p out (read_loop S R (suc fuel) left out r)
  unfolding read_loop unless_error
  at_chunk fuel left p out r c d later h enough e nz =
      let (high, fits, (b, s, q, eq, at, low, within, eb), is_front) =
        round left p r c d h e (ground arith) in
      let rest =
        later (left - length b) (p + length b) (out ++ b)
          (move S R c.size (length b) (record r { stream = s; rel_pos = q }))
          (moved_on r p c d (length b) s q h e at (omega arith)) (omega arith) in
      rw (e, nz, eq, read_loop) (joined left p out b _ (is_front b eb within) (omega arith) rest)

  read_loop_lem : (fuel : ℕ) → Done fuel
  unfolding read_loop
  read_loop_lem zero left p out r h enough =
      let z : left ≡ 0 = omega arith in rw z (stop 0 p out r h refl)
  read_loop_lem (suc fuel) left p out r h enough =
      go (λ l p' o r' h' k. read_loop_lem fuel l p' o r' h' k) (get_elem? r.chunks r.chunk_index)
        refl
    where
      go :
          Done fuel
          → (o : Option (DeltaChunk × Option Bytes)) → get_elem? r.chunks r.chunk_index ≡ o
          → Loop left p out (read_loop S R (suc fuel) left out r)
      go later none e =
          rw (e, read_loop) (stop left p out r h (rw (exhausted r p h e) (take-nil left)))
      go later (some (c, d)) e = elim (Bool-cases (left == 0)) [
        | inl z ↦
            let done : left ≡ 0 = ground arith in
            rw (e, z, read_loop) (stop left p out r h (ap (λ (k : ℕ). take k (drop p whole)) done))
        | inr nz ↦ at_chunk fuel left p out r c d later h enough e nz
      ]

  at_end_some : (b : Bytes) (r : Reader S R) → 0 < length b → at_end S R (b, none, r) ≡ (b, none, r)
  unfolding at_end
  at_end_some [] r h = absurd (omega arith)
  at_end_some (x ∷ b) r h = refl

  -- A read gives all that was asked for, or what is left of the object.
  pub read_delta_lem :
      (n p : ℕ) (r : Reader S R)
      → ObjectAt r p
      → 0 < n
      → p < length whole
      → (r' : Reader S R) × (read_delta S R n r ≡ (take n (drop p whole), none, r'))
        × ObjectAt r' (p + length (take n (drop p whole)))
  unfolding read_delta
  read_delta_lem n p r h some_wanted before_end =
      let (r', e, at) = read_loop_lem n n p [] r h (omega arith) in
      let some_read : 0 < length (take n (drop p whole)) =
        omega (arith, length-take n (drop p whole), length-drop p whole) in
      (r', rw e (at_end_some (take n (drop p whole)) r' some_read), at)
