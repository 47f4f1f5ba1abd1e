-- ===== src/Delta/Caching/Waiting.antt =====
-- No copy of a delta is missed by `initCache`: those not yet cached wait in its list.
use go_repo_dojo.Base.{
  ℕ, zero, suc, ◌+◌, ◌<◌, ◌≡◌, ◌⊎◌, refl, ap, inl, inr, Bool-cases, Option, some, List, [], ◌∷◌,
  ◌++◌, arith, Bytes,
}
use go_repo_dojo.Delta.{DeltaChunkKind, delta_add_new, delta_copy_from_base, DeltaChunk, Chunks}
use go_repo_dojo.Delta.Caching.{
  CopyRef, ref_of, copy_refs, ref_less, insert_ref, sort_refs, data_at, set_data,
}

unfoldable pub plain : Chunks → List DeltaChunk
plain [] = []
plain ((c, d) ∷ cs) = c ∷ plain cs

pub plain-set_data : (k : ℕ) (b : Bytes) (cs : Chunks) → plain (set_data k b cs) ≡ plain cs
unfolding plain set_data
plain-set_data k b [] = refl
plain-set_data zero b ((c, d) ∷ cs) = refl
plain-set_data (suc k) b ((c, d) ∷ cs) = ap (◌∷◌ c) (plain-set_data k b cs)

-- The chunk is still in the list of copies.
unfoldable pub Waits : ℕ → List CopyRef → Type 0
Waits i [] = ⊥
Waits i (r ∷ rs) = (r.idx ≡ i) ⊎ Waits i rs

-- Every chunk is new data, or cached, or waits. The index of the first is given.
unfoldable pub HasData : Option Bytes → Type 0
HasData d = (b : Bytes) × (d ≡ some b)

unfoldable pub Covered : List CopyRef → ℕ → Chunks → Type 0
unfolding Waits HasData
Covered rs i [] = Unit {0}
Covered rs i ((c, d) ∷ cs) =
    ((c.kind ≡ delta_add_new) ⊎ HasData d ⊎ Waits i rs) × Covered rs (suc i) cs

pub Covered-mono :
    (rs qs : List CopyRef) (i : ℕ) (cs : Chunks)
    → ((j : ℕ) → Waits j rs → Waits j qs)
    → Covered rs i cs
    → Covered qs i cs
unfolding Covered
Covered-mono rs qs i [] f h = tt
Covered-mono rs qs i ((c, d) ∷ cs) f (inl e, h) = (inl e, Covered-mono rs qs (suc i) cs f h)
Covered-mono rs qs i ((c, d) ∷ cs) f (inr (inl e), h) =
    (inr (inl e), Covered-mono rs qs (suc i) cs f h)
Covered-mono rs qs i ((c, d) ∷ cs) f (inr (inr w), h) =
    (inr (inr (f i w)), Covered-mono rs qs (suc i) cs f h)

Covered-ref_of :
    (kind : DeltaChunkKind) (i : ℕ) (c : DeltaChunk) (d : Option Bytes) (rs : List CopyRef)
    → c.kind ≡ kind
    → (c.kind ≡ delta_add_new) ⊎ HasData d ⊎ Waits i (ref_of kind i c ++ rs)
unfolding ref_of Waits
Covered-ref_of delta_add_new i c d rs e = inl e
Covered-ref_of delta_copy_from_base i c d rs e = inr (inr (inl refl))

Waits-ref_of :
    (kind : DeltaChunkKind) (i : ℕ) (c : DeltaChunk) (rs : List CopyRef) (j : ℕ)
    → Waits j rs
    → Waits j (ref_of kind i c ++ rs)
unfolding ref_of Waits
Waits-ref_of delta_add_new i c rs j w = w
Waits-ref_of delta_copy_from_base i c rs j w = inr w

pub Covered-copy_refs : (i : ℕ) (cs : Chunks) → Covered (copy_refs i cs) i cs
unfolding Covered copy_refs
Covered-copy_refs i [] = tt
Covered-copy_refs i ((c, d) ∷ cs) =
    let rs = copy_refs (suc i) cs in
    (
      Covered-ref_of c.kind i c d rs refl,
      Covered-mono rs (ref_of c.kind i c ++ rs) (suc i) cs (Waits-ref_of c.kind i c rs)
          (Covered-copy_refs (suc i) cs),
    )

Waits_later :
    (r q : CopyRef) (rs qs : List CopyRef) (j : ℕ)
    → (Waits j (r ∷ rs) → Waits j qs)
    → Waits j (r ∷ q ∷ rs)
    → Waits j (q ∷ qs)
unfolding Waits
Waits_later r q rs qs j f (inl e) = inr (f (inl e))
Waits_later r q rs qs j f (inr (inl e)) = inl e
Waits_later r q rs qs j f (inr (inr v)) = inr (f (inr v))

Waits-insert_ref :
    (r : CopyRef) (rs : List CopyRef) (j : ℕ) → Waits j (r ∷ rs) → Waits j (insert_ref r rs)
unfolding insert_ref
Waits-insert_ref r [] j w = w
Waits-insert_ref r (q ∷ qs) j w = elim (Bool-cases (ref_less q.chunk r.chunk)) [
  | inl t ↦ rw t (Waits_later r q qs (insert_ref r qs) j (Waits-insert_ref r qs j) w)
  | inr t ↦ rw t w
]

pub Waits-sort_refs : (rs : List CopyRef) (j : ℕ) → Waits j rs → Waits j (sort_refs rs)
unfolding Waits sort_refs
Waits-sort_refs [] j w = w
Waits-sort_refs (r ∷ rs) j (inl e) = Waits-insert_ref r (sort_refs rs) j (inl e)
Waits-sort_refs (r ∷ rs) j (inr w) =
    Waits-insert_ref r (sort_refs rs) j (inr (Waits-sort_refs rs j w))

-- A copy with another index does not count.
other :
    (c : DeltaChunk) (d : Option Bytes) (r : CopyRef) (rs : List CopyRef) (i : ℕ)
    → ¬ (r.idx ≡ i)
    → (c.kind ≡ delta_add_new) ⊎ HasData d ⊎ Waits i (r ∷ rs)
    → (c.kind ≡ delta_add_new) ⊎ HasData d ⊎ Waits i rs
unfolding Waits
other c d r rs i n (inl e) = inl e
other c d r rs i n (inr (inl h)) = inr (inl h)
other c d r rs i n (inr (inr (inl e))) = absurd (n e)
other c d r rs i n (inr (inr (inr w))) = inr (inr w)

Covered-past :
    (r : CopyRef) (rs : List CopyRef) (i : ℕ) (cs : Chunks)
    → Covered (r ∷ rs) i cs
    → r.idx < i
    → Covered rs i cs
unfolding Covered
Covered-past r rs i [] h low = tt
Covered-past r rs i ((c, d) ∷ cs) (hc, h) low =
    (other c d r rs i (λ e. omega (arith, e, low)) hc, Covered-past r rs (suc i) cs h (omega arith))

-- Once its data is there the copy need not wait.
pub Covered-step :
    (r : CopyRef) (rs : List CopyRef) (i k : ℕ) (cs : Chunks)
    → Covered (r ∷ rs) i cs
    → r.idx ≡ i + k
    → HasData (data_at k cs)
    → Covered rs i cs
unfolding Covered data_at
Covered-step r rs i k [] h e d = tt
Covered-step r rs i zero ((c, d) ∷ cs) (hc, h) e given =
    (inr (inl given), Covered-past r rs (suc i) cs h (omega arith))
Covered-step r rs i (suc k) ((c, d) ∷ cs) (hc, h) e given = (
  other c d r rs i (λ t. omega (arith, e, t)) hc,
  Covered-step r rs (suc i) k cs h (omega arith) given,
)

pub Covered-set_data :
    (r : CopyRef) (rs : List CopyRef) (i k : ℕ) (b : Bytes) (cs : Chunks)
    → Covered (r ∷ rs) i cs
    → r.idx ≡ i + k
    → Covered rs i (set_data k b cs)
unfolding Covered set_data HasData
Covered-set_data r rs i k b [] h e = tt
Covered-set_data r rs i zero b ((c, d) ∷ cs) (hc, h) e =
    (inr (inl (b, refl)), Covered-past r rs (suc i) cs h (omega arith))
Covered-set_data r rs i (suc k) b ((c, d) ∷ cs) (hc, h) e = (
  other c d r rs i (λ t. omega (arith, e, t)) hc,
  Covered-set_data r rs (suc i) k b cs h (omega arith),
)
