-- ===== src/Delta/Caching/Filled.antt =====
-- `initCache` leaves every chunk of a delta ready to be read.
use go_repo_dojo.Base.{
  ℕ, suc, ◌≡◌, refl, sym, ap, ◌∙◌, subst, inl, inr, Bool-cases, true, false, Option, none, some,
  List, [], ◌∷◌, ◌++◌, arith, Bytes, get_elem?, All, Result, ok,
}
use go_repo_dojo.Readers.{ReaderOps, Reads}
use go_repo_dojo.Delta.{DeltaChunk, Chunks, wanted, expand}
use go_repo_dojo.Delta.Reader.Rounds.{IsCached, IsReady}
use go_repo_dojo.Delta.Caching.Waiting.{
  plain, plain-set_data, Waits, HasData, Covered, Covered-copy_refs, Covered-mono, Waits-sort_refs,
  Covered-step, Covered-set_data,
}
use go_repo_dojo.Delta.Caching.{
  CopyRef, copy_refs, sort_refs, data_at, set_data, is_cached, cache_loop, init_cache,
}
use go_repo_dojo.Delta.Caching.Copies.{
  RefIn, RefIn-copy_refs, All-sort_refs, IsFit, IsPrev, IsFit-set_data, cache_copy_lem,
}

is_cached-HasData : (d : Option Bytes) → is_cached d ≡ true → HasData d
unfolding is_cached HasData
is_cached-HasData none e = absurd (cc e)
is_cached-HasData (some b) e = (b, refl)

-- The object depends on the chunks and not on their caches.
expand-plain :
    (content base : Bytes) (cs ds : Chunks)
    → plain cs ≡ plain ds
    → expand content base cs ≡ expand content base ds
unfolding plain expand
expand-plain content base [] [] e = refl
expand-plain content base [] (x ∷ ds) e = absurd (cc e)
expand-plain content base (x ∷ cs) [] e = absurd (cc e)
expand-plain content base ((c, d) ∷ cs) ((c', d') ∷ ds) e =
    ap (λ (x : DeltaChunk). wanted content base x ++ expand content base cs) (cc e)
    ∙ ap (λ (t : Bytes). wanted content base c' ++ t) (expand-plain content base cs ds (cc e))

-- Fit chunks none of which waits are ready.
IsFit-IsReady :
    (content base : Bytes) (i : ℕ) (cs : Chunks)
    → All (IsFit content base) cs
    → Covered [] i cs
    → All (IsReady content base) cs
unfolding Covered Waits HasData IsFit IsCached
IsFit-IsReady content base i [] h cov = tt
IsFit-IsReady content base i ((c, none) ∷ cs) ((low, len, f), h) (inl new, cov) =
    ((low, len, new), IsFit-IsReady content base (suc i) cs h cov)
IsFit-IsReady content base i ((c, none) ∷ cs) ((low, len, f), h) (inr (inl (b, e)), cov) =
    absurd (cc e)
IsFit-IsReady content base i ((c, d) ∷ cs) ((low, len, f), h) (inr (inr w), cov) = absurd w
IsFit-IsReady content base i ((c, some b) ∷ cs) ((low, len, inl e), h) (hc, cov) = absurd (cc e)
IsFit-IsReady content base i ((c, some b) ∷ cs) ((low, len, inr e), h) (hc, cov) = (
  (low, len, ap (λ (o : Option Bytes). elim o [ none ↦ b | some x ↦ x ]) e),
  IsFit-IsReady content base (suc i) cs h cov,
)

module _ (content base : Bytes) (R : ReaderOps) (RAt : R.State → ℕ → Type 0)
    (base_reads : Reads R base RAt) where
  -- The loop came to its end: no chunk waits.
  abbrev Filled : Chunks → Result (Chunks × R.State) → Type 0
  Filled cs result =
      (cs' : Chunks) × (s : R.State) × (q : ℕ) × (result ≡ ok (cs', s))
      × All (IsFit content base) cs'
      × (plain cs' ≡ plain cs)
      × Covered [] 0 cs'
      × RAt s q

  abbrev Caches : List CopyRef → Type 0
  Caches rs =
      (prev : Option CopyRef) (cs : Chunks) (s : R.State) (p : ℕ)
      → All (IsFit content base) cs
      → Covered rs 0 cs
      → All (RefIn (plain cs) 0) rs
      → IsPrev content base (plain cs) prev
      → RAt s p
      → Filled cs (cache_loop R prev rs cs s)

  -- A round that caches the copy, and then the rest.
  Caches-one :
      (r : CopyRef) (rs : List CopyRef) (prev : Option CopyRef) (cs : Chunks) (s : R.State) (p : ℕ)
      → Caches rs
      → All (IsFit content base) cs
      → Covered (r ∷ rs) 0 cs
      → All (RefIn (plain cs) 0) (r ∷ rs)
      → IsPrev content base (plain cs) prev
      → RAt s p
      → is_cached (data_at r.idx cs) ≡ false
      → Filled cs (cache_loop R prev (r ∷ rs) cs s)
  unfolding cache_loop RefIn IsPrev
  Caches-one r rs prev cs s p later fit cov (in_r, in_rs) is_prev h not_yet =
      let b = wanted content base r.chunk in
      let (s1, q1, e1, at1) =
        cache_copy_lem content base R RAt base_reads cs prev r s p fit is_prev in_r h in
      let (k, at, here, kind) = in_r in
      let same = plain-set_data r.idx b cs in
      let (cs2, s2, q2, e2, fit2, same2, cov2, at2) =
        later (some r) (set_data r.idx b cs) s1 q1
          (IsFit-set_data content base cs r.idx r.chunk fit
            (subst (λ (i : ℕ). get_elem? (plain cs) i ≡ some r.chunk) (omega arith) here))
          (Covered-set_data r rs 0 r.idx b cs cov (omega arith))
          (subst (λ (ps : List DeltaChunk). All (RefIn ps 0) rs) (sym same) in_rs)
          (subst (λ (ps : List DeltaChunk). RefIn ps 0 r) (sym same) in_r) at1 in
      (cs2, s2, q2, rw (not_yet, e1) e2, fit2, same2 ∙ same, cov2, at2)

  cache_loop_lem : (rs : List CopyRef) → Caches rs
  unfolding cache_loop IsPrev
  cache_loop_lem [] prev cs s p fit cov refs is_prev h = (cs, s, p, refl, fit, refl, cov, h)
  cache_loop_lem (r ∷ rs) prev cs s p fit cov (in_r, in_rs) is_prev h =
      elim (Bool-cases (is_cached (data_at r.idx cs))) [
        | inl yet ↦
            let (cs2, s2, q2, e2, fit2, same2, cov2, at2) =
              cache_loop_lem rs (some r) cs s p fit
                (Covered-step r rs 0 r.idx cs cov (omega arith)
                  (is_cached-HasData (data_at r.idx cs) yet))
                in_rs in_r h in
            (cs2, s2, q2, rw (yet, cache_loop) e2, fit2, same2, cov2, at2)
        | inr not_yet ↦
            Caches-one r rs prev cs s p (cache_loop_lem rs) fit cov (in_r, in_rs) is_prev h not_yet
      ]

  -- If every chunk is not empty, lies in the instructions' data or in the base, and is not cached or
  -- cached rightly, and the base's reader gives the base, then `initCache` succeeds: every copy is
  -- cached with its own bytes, and the object that the chunks stand for is the same.
  pub init_cache-IsReady :
      (cs : Chunks) (s : R.State) (p : ℕ)
      → All (IsFit content base) cs
      → RAt s p
      → (cs' : Chunks) × (s' : R.State) × (q : ℕ) × (init_cache R cs s ≡ ok (cs', s'))
        × All (IsReady content base) cs'
        × (expand content base cs' ≡ expand content base cs)
        × RAt s' q
  unfolding init_cache IsPrev
  init_cache-IsReady cs s p fit h =
      let refs = copy_refs 0 cs in
      let (cs2, s2, q2, e2, fit2, same2, cov2, at2) =
        cache_loop_lem (sort_refs refs) none cs s p fit
          (Covered-mono refs (sort_refs refs) 0 cs (Waits-sort_refs refs) (Covered-copy_refs 0 cs))
          (All-sort_refs (RefIn (plain cs) 0) refs (RefIn-copy_refs 0 cs)) tt h in
      (
        cs2,
        s2,
        q2,
        e2,
        IsFit-IsReady content base 0 cs2 fit2 cov2,
        expand-plain content base cs2 cs same2,
        at2,
      )
