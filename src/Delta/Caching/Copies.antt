-- ===== src/Delta/Caching/Copies.antt =====
-- What `initCache` caches for one copy is the copy's own bytes, also if it is cut from another's.
use go_repo_dojo.Base.{
  ℕ, zero, suc, ◌+◌, ◌-◌, ◌≤◌, ◌<◌, ◌≡◌, ◌⊎◌, refl, sym, ap, ◌∙◌, subst, inl, inr, Bool-cases,
  Option-cases, Bool, true, false, ◌&&◌, Option, none, some, List, [], ◌∷◌, arith, ◌==◌, ltb,
  if◌then◌else◌, Bytes, length, take-take, length-take, length-drop, take, drop, get_elem?, All,
  All-append, ok,
}
use go_repo_dojo.Readers.{ReaderOps, Reads}
use go_repo_dojo.Readers.Loops.{fill_lem}
use go_repo_dojo.Delta.{
  DeltaChunkKind, delta_add_new, delta_copy_from_base, DeltaChunk, Chunks, chunk_bytes, wanted,
}
use go_repo_dojo.Delta.Caching.Waiting.{plain}
use go_repo_dojo.Delta.Caching.{
  CopyRef, ref_of, copy_refs, ref_less, insert_ref, sort_refs, data_at, set_data, cut_from, skip_to,
  read_copy, cache_copy,
}

-- The reference is to a copy among the chunks.
unfoldable pub RefIn : List DeltaChunk → ℕ → CopyRef → Type 0
RefIn ps i r =
    (k : ℕ) × (r.idx ≡ i + k)
    × (get_elem? ps k ≡ some r.chunk)
    × (r.chunk.kind ≡ delta_copy_from_base)

RefIn-later :
    (c : DeltaChunk) (ps : List DeltaChunk) (i : ℕ) (rs : List CopyRef)
    → All (RefIn ps (suc i)) rs
    → All (RefIn (c ∷ ps) i) rs
unfolding RefIn
RefIn-later c ps i [] h = tt
RefIn-later c ps i (r ∷ rs) ((k, e, g, kind), h) =
    ((suc k, omega arith, g, kind), RefIn-later c ps i rs h)

RefIn-ref_of :
    (kind : DeltaChunkKind) (c : DeltaChunk) (ps : List DeltaChunk) (i : ℕ)
    → c.kind ≡ kind
    → All (RefIn (c ∷ ps) i) (ref_of kind i c)
unfolding RefIn ref_of
RefIn-ref_of delta_add_new c ps i e = tt
RefIn-ref_of delta_copy_from_base c ps i e = ((0, omega arith, refl, e), tt)

pub RefIn-copy_refs : (i : ℕ) (cs : Chunks) → All (RefIn (plain cs) i) (copy_refs i cs)
unfolding copy_refs plain
RefIn-copy_refs i [] = tt
RefIn-copy_refs i ((c, d) ∷ cs) =
    All-append (RefIn (c ∷ plain cs) i) (ref_of c.kind i c) (copy_refs (suc i) cs)
      (RefIn-ref_of c.kind c (plain cs) i refl)
      (RefIn-later c (plain cs) i (copy_refs (suc i) cs) (RefIn-copy_refs (suc i) cs))

All-insert_ref :
    (P : CopyRef → Type 0) (r : CopyRef) (rs : List CopyRef)
    → P r
    → All P rs
    → All P (insert_ref r rs)
unfolding insert_ref
All-insert_ref P r [] h hs = (h, tt)
All-insert_ref P r (q ∷ qs) h (hq, hs) = elim (Bool-cases (ref_less q.chunk r.chunk)) [
  | inl t ↦ rw t (hq, All-insert_ref P r qs h hs)
  | inr t ↦ rw t (h, (hq, hs))
]

pub All-sort_refs : (P : CopyRef → Type 0) (rs : List CopyRef) → All P rs → All P (sort_refs rs)
unfolding sort_refs
All-sort_refs P [] h = tt
All-sort_refs P (r ∷ rs) (h, hs) = All-insert_ref P r (sort_refs rs) h (All-sort_refs P rs hs)

cut_some :
    (t : Bool) (o : Option Bytes) (n : ℕ) (b : Bytes)
    → (if t then (elim o [ none ↦ none | some x ↦ some (take n x) ]) else none) ≡ some b
    → (t ≡ true) × (x : Bytes) × (o ≡ some x) × (b ≡ take n x)
cut_some true (some x) n b e =
    (refl, x, refl, sym (ap (λ (o : Option Bytes). elim o [ none ↦ b | some y ↦ y ]) e))
cut_some true none n b e = absurd (cc e)
cut_some false o n b e = absurd (cc e)

module _ (content base : Bytes) where
  -- A chunk is not empty, lies in its source, and its cached data is no other than its own.
  unfoldable pub IsFit : DeltaChunk × Option Bytes → Type 0
  IsFit (c, d) =
      (0 < c.size)
      × (length (wanted content base c) ≡ c.size)
      × ((d ≡ none) ⊎ (d ≡ some (wanted content base c)))

  wanted_copy :
      (c : DeltaChunk)
      → c.kind ≡ delta_copy_from_base
      → wanted content base c ≡ take c.size (drop c.offset base)
  unfolding chunk_bytes
  wanted_copy c e = ap (λ (kind : DeltaChunkKind). chunk_bytes content base kind c.offset c.size) e

  IsFit-chunk :
      (cs : Chunks) (k : ℕ) (c : DeltaChunk)
      → All IsFit cs
      → get_elem? (plain cs) k ≡ some c
      → (0 < c.size) × (length (wanted content base c) ≡ c.size)
  unfolding plain IsFit
  IsFit-chunk [] k c h e = absurd (cc e)
  IsFit-chunk ((q, d) ∷ cs) zero c ((low, len, f), h) e =
      subst (λ (x : DeltaChunk). (0 < x.size) × (length (wanted content base x) ≡ x.size)) (cc e)
        (low, len)
  IsFit-chunk ((q, d) ∷ cs) (suc k) c (hq, h) e = IsFit-chunk cs k c h e

  IsFit-data_at :
      (cs : Chunks) (k : ℕ) (c : DeltaChunk) (b : Bytes)
      → All IsFit cs
      → get_elem? (plain cs) k ≡ some c
      → data_at k cs ≡ some b
      → b ≡ wanted content base c
  unfolding plain IsFit data_at
  IsFit-data_at [] k c b h e g = absurd (cc e)
  IsFit-data_at ((q, d) ∷ cs) zero c b ((low, len, inl none_yet), h) e g = absurd (cc (none_yet, g))
  IsFit-data_at ((q, d) ∷ cs) zero c b ((low, len, inr same), h) e g =
      ap (λ (o : Option Bytes). elim o [ none ↦ b | some x ↦ x ]) (sym g ∙ same)
      ∙ ap (wanted content base) (cc e)
  IsFit-data_at ((q, d) ∷ cs) (suc k) c b (hq, h) e g = IsFit-data_at cs k c b h e g

  pub IsFit-set_data :
      (cs : Chunks) (k : ℕ) (c : DeltaChunk)
      → All IsFit cs
      → get_elem? (plain cs) k ≡ some c
      → All IsFit (set_data k (wanted content base c) cs)
  unfolding plain IsFit set_data
  IsFit-set_data [] k c h e = tt
  IsFit-set_data ((q, d) ∷ cs) zero c ((low, len, f), h) e =
      ((low, len, inr (ap (λ (x : DeltaChunk). some (wanted content base x)) (sym (cc e)))), h)
  IsFit-set_data ((q, d) ∷ cs) (suc k) c (hq, h) e = (hq, IsFit-set_data cs k c h e)

  unfoldable pub IsPrev : List DeltaChunk → Option CopyRef → Type 0
  IsPrev ps none = Unit {0}
  IsPrev ps (some p) = RefIn ps 0 p

  smaller : (a b m n : ℕ) → ((a == b) && ltb n m) ≡ true → (a ≡ b) × (n ≤ m)
  smaller a b m n e = ground (arith, e)

  -- The subset optimisation cuts the very bytes that a read would give.
  cut_lem :
      (cs : Chunks) (prev : Option CopyRef) (c : DeltaChunk) (b : Bytes)
      → All IsFit cs
      → IsPrev (plain cs) prev
      → c.kind ≡ delta_copy_from_base
      → cut_from prev c cs ≡ some b
      → b ≡ wanted content base c
  unfolding cut_from RefIn IsPrev
  cut_lem cs none c b h ps kind e = absurd (cc e)
  cut_lem cs (some p) c b h (k, at, here, p_kind) kind e =
      let (t, x, got, cut) =
        cut_some (p.chunk.offset == c.offset && ltb c.size p.chunk.size) (data_at p.idx cs) c.size b
          e in
      let (same, less) = smaller p.chunk.offset c.offset p.chunk.size c.size t in
      let k_idx : p.idx ≡ k = omega arith in
      cut
      ∙ ap (take c.size) (
          IsFit-data_at cs k p.chunk x h here (ap (λ (i : ℕ). data_at i cs) (sym k_idx) ∙ got)
          ∙ wanted_copy p.chunk p_kind)
      ∙ take-take c.size p.chunk.size (drop p.chunk.offset base) less
      ∙ ap (λ (o : ℕ). take c.size (drop o base)) same
      ∙ sym (wanted_copy c kind)

  -- The length of what is read says that it lies in the base.
  inside_base : (o n : ℕ) → 0 < n → length (take n (drop o base)) ≡ n → o + n ≤ length base
  inside_base o n low e = omega (arith, length-take n (drop o base), length-drop o base)

  module _ (R : ReaderOps) (RAt : R.State → ℕ → Type 0) (base_reads : Reads R base RAt) where
    skip_to_lem :
        (o : ℕ) (s : R.State)
        → RAt s 0
        → o ≤ length base
        → (s' : R.State) × (skip_to R o s ≡ ok s') × RAt s' o
    unfolding skip_to
    skip_to_lem o s h fits = elim (Bool-cases (ltb (R.position s) o)) [
      | inl t ↦
          let here = base_reads.position_at s 0 h in
          let (s', e, at) = base_reads.skip_at s 0 (o - R.position s) h (omega arith) in
          (s', rw t e, subst (RAt s') (omega (arith, here)) at)
      | inr f ↦
          let here = base_reads.position_at s 0 h in
          (s, rw f refl, subst (RAt s) (ground (arith, f, here)) h)
    ]

    read_copy_lem :
        (c : DeltaChunk) (s : R.State) (p : ℕ)
        → RAt s p
        → c.offset + c.size ≤ length base
        → (s' : R.State) × (q : ℕ) × (read_copy R c s ≡ ok (take c.size (drop c.offset base), s'))
          × RAt s' q
    unfolding read_copy
    read_copy_lem c s p h fits =
        let (s1, e1, at1) = base_reads.reset_at s p h in
        let (s2, e2, at2) = skip_to_lem c.offset s1 at1 (omega arith) in
        let (s3, e3, at3) =
          fill_lem R.read base RAt base_reads.read_at c.size c.size c.offset s2 [] at2 fits
            (omega arith) in
        (s3, c.offset + c.size, rw (e1, e2) e3, at3)

    -- A reference's data is there after its round.
    pub cache_copy_lem :
        (cs : Chunks) (prev : Option CopyRef) (r : CopyRef) (s : R.State) (p : ℕ)
        → All IsFit cs
        → IsPrev (plain cs) prev
        → RefIn (plain cs) 0 r
        → RAt s p
        → (s' : R.State) × (q : ℕ) × (cache_copy R (cut_from prev r.chunk cs) r cs s
            ≡ ok (set_data r.idx (wanted content base r.chunk) cs, s'))
          × RAt s' q
    unfolding RefIn cache_copy
    cache_copy_lem cs prev r s p fit is_prev (k, at, here, kind) h =
        elim (Option-cases (cut_from prev r.chunk cs)) [
          | inl e ↦
              let (low, len) = IsFit-chunk cs k r.chunk fit here in
              let w = wanted_copy r.chunk kind in
              let (s', q, e', at') = read_copy_lem r.chunk s p h (
                inside_base r.chunk.offset r.chunk.size low
                  (ap (λ (b : Bytes). length b) (sym w) ∙ len)) in
              (s', q, rw (e, e', w) refl, at')
          | inr (b, e) ↦ (s, p, rw (e, cut_lem cs prev r.chunk b fit is_prev kind e) refl, h)
        ]
