-- ===== src/Delta/Reader/Content.antt =====
-- The reader of a delta gives the object that the chunks stand for.
use go_repo_dojo.Base.{
  ℕ, zero, suc, ◌+◌, ◌-◌, ◌≤◌, ◌<◌, ◌≡◌, refl, sym, ap, ◌∙◌, subst, inl, inr, Bool-cases, true,
  false, Option, [], ◌∷◌, ◌++◌, arith, leb, Bytes, length, length-append, length-drop, take, drop,
  drop-drop, drop-append_le, take-append_le, drop-length_append, All,
}
use go_repo_dojo.Readers.{ReaderOps, Reads}
use go_repo_dojo.Delta.{DeltaChunk, Chunks, wanted, expand}
use go_repo_dojo.Delta.Reader.Rounds.{IsReady}
use go_repo_dojo.Delta.Reader.{Reader, advance_from, move, least}

-- The position in the chunk that is first among those left.
unfoldable pub Within : ℕ → Chunks → Type 0
Within q [] = q ≡ 0
Within q ((c, d) ∷ cs) = q < c.size

take_front :
    (n : ℕ) (b xs ys : Bytes)
    → b ≡ take (length b) xs
    → length b ≤ n
    → n ≤ length xs
    → b ≡ take (length b) (xs ++ ys)
take_front n b xs ys e h k = e ∙ sym (take-append_le (length b) xs ys (omega arith))

pub least_bounds : (a b : ℕ) → 0 < a → 0 < b → (0 < least a b) × (least a b ≤ a) × (least a b ≤ b)
unfolding least
least_bounds a b h k = ground arith

module _ (S R : ReaderOps) (content base : Bytes) (SAt : S.State → ℕ → Type 0)
    (RAt : R.State → ℕ → Type 0) (stream_reads : Reads S content SAt)
    (base_reads : Reads R base RAt) where
  -- The reader stands at position `p` of the object.
  pub record DeltaAt (r : Reader S R) (p : ℕ) : Type 0 where
    pub ready : All (IsReady content base) r.chunks
    pub stream_at : SAt r.stream r.rel_pos
    pub base_pos : ℕ
    pub base_at : RAt r.base_reader base_pos
    pub stands :
        drop p (expand content base r.chunks)
        ≡ drop r.chunk_position (expand content base (drop r.chunk_index r.chunks))
    pub within : Within r.chunk_position (drop r.chunk_index r.chunks)
    pub position : r.real_position ≡ p
    pub inside : p ≤ length (expand content base r.chunks)

  All-drop-IsReady :
      (i : ℕ) (cs : Chunks) → All (IsReady content base) cs → All (IsReady content base) (drop i cs)
  All-drop-IsReady zero cs h = h
  All-drop-IsReady (suc i) [] h = tt
  All-drop-IsReady (suc i) (c ∷ cs) (hc, h) = All-drop-IsReady i cs h

  pub Within-zero : (cs : Chunks) → All (IsReady content base) cs → Within 0 cs
  unfolding Within
  Within-zero [] h = refl
  Within-zero ((c, d) ∷ cs) ((pos, _, _), h) = pos

  abbrev pub object : Reader S R → Bytes
  object r = expand content base r.chunks

  -- The chunk that is read, and what stands behind it.
  module _ (r : Reader S R) (p : ℕ) (h : DeltaAt r p) (c : DeltaChunk) (d : Option Bytes)
      (first : drop r.chunk_index r.chunks ≡ (c, d) ∷ drop (suc r.chunk_index) r.chunks) where
    abbrev behind : Bytes
    behind = expand content base (drop (suc r.chunk_index) r.chunks)

    pub first-IsReady : IsReady content base (c, d)
    first-IsReady =
        (subst (All (IsReady content base)) first
          (All-drop-IsReady r.chunk_index r.chunks h.ready)).0

    pub below : r.chunk_position < c.size
    unfolding Within
    below = subst (Within r.chunk_position) first h.within

    stands_here :
        drop p (expand content base r.chunks)
        ≡ drop r.chunk_position (wanted content base c ++ behind)
    unfolding expand
    stands_here =
        h.stands ∙ ap (λ (cs : Chunks). drop r.chunk_position (expand content base cs)) first

    here_length : r.chunk_position ≤ length (wanted content base c)
    here_length = omega (arith, first-IsReady.1, below)

    pub front :
        (b : Bytes)
        → b ≡ take (length b) (drop r.chunk_position (wanted content base c))
        → length b ≤ c.size - r.chunk_position
        → b ≡ take (length b) (drop p (expand content base r.chunks))
    front b e high =
        take_front (c.size - r.chunk_position) b (drop r.chunk_position (wanted content base c))
          behind e high
          (omega (arith, first-IsReady.1, length-drop r.chunk_position (wanted content base c)))
        ∙ ap (take (length b)) (
            sym (
              stands_here
              ∙ drop-append_le r.chunk_position (wanted content base c) behind here_length))

    -- The chunk's bytes are taken off the object.
    moved :
        (k : ℕ)
        → drop (p + k) (expand content base r.chunks)
          ≡ drop (r.chunk_position + k) (wanted content base c ++ behind)
    moved k =
        sym (drop-drop p k (p + k) (expand content base r.chunks) refl)
        ∙ ap (drop k) stands_here
        ∙ drop-drop r.chunk_position k (r.chunk_position + k) (wanted content base c ++ behind) refl

    room : (n : ℕ) → n ≤ c.size - r.chunk_position → p + n ≤ length (expand content base r.chunks)
    room n fits = omega (
      arith,
      h.inside,
      first-IsReady.1,
      ap (λ (xs : Bytes). length xs) stands_here,
      length-drop p (expand content base r.chunks),
      length-drop r.chunk_position (wanted content base c ++ behind),
      length-append (wanted content base c) behind,
    )

    move_next :
        (n : ℕ) (s : S.State) (q : ℕ)
        → SAt s q
        → n ≤ c.size - r.chunk_position
        → leb c.size (r.chunk_position + n) ≡ true
        → DeltaAt (move S R c.size n (record r { stream = s; rel_pos = q })) (p + n)
    unfolding move advance_from
    move_next n s q at high t = rw t (record {
      ready = h.ready;
      stream_at = at;
      base_pos = h.base_pos;
      base_at = h.base_at;
      stands =
          moved n
          ∙ drop-length_append (wanted content base c) behind (r.chunk_position + n)
              (ground (arith, t, first-IsReady.1, below, high));
      within =
          Within-zero (drop (suc r.chunk_index) r.chunks)
            (All-drop-IsReady (suc r.chunk_index) r.chunks h.ready);
      position = ap (λ (k : ℕ). k + n) h.position;
      inside = room n high;
    })

    move_on :
        (n : ℕ) (s : S.State) (q : ℕ)
        → SAt s q
        → n ≤ c.size - r.chunk_position
        → leb c.size (r.chunk_position + n) ≡ false
        → DeltaAt (move S R c.size n (record r { stream = s; rel_pos = q })) (p + n)
    unfolding move advance_from expand Within
    move_on n s q at high t = rw t (record {
      ready = h.ready;
      stream_at = at;
      base_pos = h.base_pos;
      base_at = h.base_at;
      stands =
          moved n
          ∙ sym (ap (λ (cs : Chunks). drop (r.chunk_position + n) (expand content base cs)) first);
      within = subst (Within (r.chunk_position + n)) (sym first) (ground (arith, t));
      position = ap (λ (k : ℕ). k + n) h.position;
      inside = room n high;
    })

    pub move_lem :
        (n : ℕ) (s : S.State) (q : ℕ)
        → SAt s q
        → n ≤ c.size - r.chunk_position
        → DeltaAt (move S R c.size n (record r { stream = s; rel_pos = q })) (p + n)
    move_lem n s q at high = elim (Bool-cases (leb c.size (r.chunk_position + n))) [
      | inl t ↦ move_next n s q at high t
      | inr t ↦ move_on n s q at high t
    ]
