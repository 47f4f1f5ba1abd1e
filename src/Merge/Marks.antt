-- ===== src/Merge/Marks.antt =====
-- One round of `commonAncestor`: what it marks, and what it puts into the queue.
use go_repo_dojo.Base.{
  Names, contains, ℕ, zero, suc, ◌+◌, ◌≤◌, ◌≡◌, refl, ap, ◌∙◌, subst, Bool, true, false, Bool-cases,
  ◌||◌, Option-cases, inl, inr, List, [], ◌∷◌, Bytes, map_set, All, Result, ok, err, ◌>>=◌,
  >>=-eq-ok, Result-cases, Error, ◌≢◌, arith,
}
use go_repo_dojo.Hash.{Hash, hex}
use go_repo_dojo.Repo.{Repo, Object, new_object}
use go_repo_dojo.Heap.{fix}
use go_repo_dojo.Heap.Kept.{total, Permᴰ-total, Permᴰ-All, fix-Permᴰ}
use go_repo_dojo.Merge.{
  CommitParentKind, commit_parent_one, commit_parent_two, commit_parent_stale, CommitParent, Queue,
  newer, same_oid, push_parent, push_all, Ancestry, add_to_both, Marked, base, skipped, marked,
  mark, index_of, set_stale, offer_parent, offer_parents,
}
use go_repo_dojo.Merge.Graph.{
  parents_weight, node_weight, node_of, push_parent-Permᴰ, push_parent-ne-err,
}
use go_repo_dojo.Merge.Descent.{IsSide, other}
use mathlib.Core.List.{Permᴰ, Memᴰ}
use mathlib.Core.List.Permᴰ

-- The names that were met from an end, and those met from the other.
abbrev pub met : CommitParentKind → Ancestry → Names
met commit_parent_two s = s.parents_of2
met _ s = s.parents_of1

abbrev pub met_across : CommitParentKind → Ancestry → Names
met_across commit_parent_two s = s.parents_of1
met_across _ s = s.parents_of2

abbrev pub meet : CommitParentKind → Bytes → Ancestry → Ancestry
meet commit_parent_two name s = record s { parents_of2 = map_set name true s.parents_of2 }
meet _ name s = record s { parents_of1 = map_set name true s.parents_of1 }

-- What the `switch` of `commonAncestor` finds out about a node of one of the ends.
pub data MarkedCase (oid1 oid2 : Hash) (kind : CommitParentKind) (oid : Hash) (s : Ancestry)
    : Marked → Type 0 where
  at_other :
      same_oid oid (other oid1 oid2 kind) ≡ true
      → MarkedCase oid1 oid2 kind oid s (base (other oid1 oid2 kind))
  at_both :
      contains (met_across kind s) (hex oid) ≡ true
      → MarkedCase oid1 oid2 kind oid s (marked (add_to_both oid s))
  again : contains (met kind s) (hex oid) ≡ true → MarkedCase oid1 oid2 kind oid s skipped
  first :
      contains (met_across kind s) (hex oid) ≡ false
      → MarkedCase oid1 oid2 kind oid s (marked (meet kind (hex oid) s))

pub mark-MarkedCase :
    (oid1 oid2 : Hash) (kind : CommitParentKind) (oid : Hash) (s : Ancestry)
    → IsSide kind
    → MarkedCase oid1 oid2 kind oid s (mark oid1 oid2 kind oid s)
unfolding mark
mark-MarkedCase oid1 oid2 commit_parent_one oid s h = elim (Bool-cases (same_oid oid oid2)) [
  | inl t ↦ rw t (at_other t)
  | inr t ↦ rw t (elim (Bool-cases (contains s.parents_of2 (hex oid))) [
    | inl u ↦ rw u (at_both u)
    | inr u ↦ rw u (elim (Bool-cases (contains s.parents_of1 (hex oid))) [
      | inl v ↦ rw v (again v)
      | inr v ↦ rw v (first u)
    ])
  ])
]
mark-MarkedCase oid1 oid2 commit_parent_two oid s h = elim (Bool-cases (same_oid oid oid1)) [
  | inl t ↦ rw t (at_other t)
  | inr t ↦ rw t (elim (Bool-cases (contains s.parents_of1 (hex oid))) [
    | inl u ↦ rw u (at_both u)
    | inr u ↦ rw u (elim (Bool-cases (contains s.parents_of2 (hex oid))) [
      | inl v ↦ rw v (again v)
      | inr v ↦ rw v (first u)
    ])
  ])
]
mark-MarkedCase oid1 oid2 commit_parent_stale oid s h = absurd h

set_stale-All :
    (P : CommitParent → Type 0)
    → ((n : CommitParent) → P n → P (record n { kind = commit_parent_stale }))
    → (i : ℕ) (q : Queue) → All P q
    → All P (set_stale i q)
unfolding set_stale
set_stale-All P f i [] h = tt
set_stale-All P f zero (n ∷ q) (hn, h) = (f n hn, h)
set_stale-All P f (suc i) (n ∷ q) (hn, h) = (hn, set_stale-All P f i q h)

set_stale-total :
    (w : Bytes → ℕ) (i : ℕ) (q : Queue)
    → total (node_weight w) (set_stale i q) ≡ total (node_weight w) q
unfolding set_stale
set_stale-total w i [] = refl
set_stale-total w zero (n ∷ q) = refl
set_stale-total w (suc i) (n ∷ q) = let rest = set_stale-total w i q in omega arith

module _ (repo : Repo) (w : Bytes → ℕ) (kind : CommitParentKind) where
  -- A parent adds its weight at most, and what holds of the nodes goes on holding.
  record Offered (P : CommitParent → Type 0) (weight : ℕ) (q q' : Queue) : Type 0 where
    kept : All P q → All P q'
    bounded : total (node_weight w) q' ≤ weight + total (node_weight w) q

  module _ (P : CommitParent → Type 0)
      (stays : (n : CommitParent) → P n → P (record n { kind = commit_parent_stale })) where
    push_parent-Offered :
        (k : CommitParentKind) (oid : Hash) (q q' : Queue)
        → push_parent repo k oid q ≡ ok q'
        → ((o : Object) (ts : ℕ) → new_object repo oid true ≡ ok o → P (node_of k oid ts))
        → Offered P (w (hex oid)) q q'
    push_parent-Offered k oid q q' h new =
        let (o, ts, read, perm) = push_parent-Permᴰ repo k oid q q' h in
        let sum = Permᴰ-total (node_weight w) perm in
        record {
          kept = λ old. Permᴰ-All P (Permᴰ.symm perm) (new o ts read, old);
          bounded = omega arith;
        }

    offer_parent-Offered :
        (is_stale : Bool) (oid : Hash) (q q' : Queue)
        → offer_parent repo kind is_stale oid q ≡ ok q'
        → ((o : Object) (ts : ℕ) → new_object repo oid true ≡ ok o → P (node_of kind oid ts))
        → Offered P (w (hex oid)) q q'
    unfolding offer_parent
    offer_parent-Offered false oid q q' h new = push_parent-Offered kind oid q q' h new
    offer_parent-Offered true oid q q' h new = elim (Option-cases (index_of oid q)) [
      | inl e ↦
          push_parent-Offered commit_parent_stale oid q q' (rw (e, offer_parent) at h)
            (λ o ts read. stays (node_of kind oid ts) (new o ts read))
      | inr (i, e) ↦
          let same : fix newer i (set_stale i q) ≡ q' = cc (rw (e, offer_parent) at h) in
          let perm : Permᴰ q' (set_stale i q) =
            subst (λ x. Permᴰ x (set_stale i q)) same (fix-Permᴰ newer i (set_stale i q)) in
          let sum = Permᴰ-total (node_weight w) perm in
          let marks = set_stale-total w i q in
          record {
            kept = λ old. Permᴰ-All P (Permᴰ.symm perm) (set_stale-All P stays i q old);
            bounded = omega arith;
          }
    ]

    pub offer_parents-All :
        (is_base : Bool) (st : Names) (oids : List Hash) (q q' : Queue)
        → offer_parents repo kind is_base st oids q ≡ ok q'
        → ((oid : Hash) (o : Object) (ts : ℕ)
            → Memᴰ oid oids
            → new_object repo oid true ≡ ok o
            → P (node_of kind oid ts))
        → All P q
        → All P q' × (total (node_weight w) q' ≤ parents_weight w oids + total (node_weight w) q)
    unfolding offer_parents
    offer_parents-All is_base st [] q q' h new old =
        let same : q ≡ q' = cc h in
        let sum = ap (total (node_weight w)) same in (subst (All P) same old, omega arith)
    offer_parents-All is_base st (oid ∷ oids) q q' h new old =
        let stale : Bool = is_base || contains st (hex oid) in
        let (q1, now, rest) = >>=-eq-ok (offer_parent repo kind stale oid q) _ h in
        let one =
          offer_parent-Offered stale oid q q1 now
            (λ o ts read. new oid o ts (Memᴰ.head refl) read) in
        let bound = one.bounded in
        let (all, sum) =
          offer_parents-All is_base st oids q1 q' rest (λ a b t m. new a b t (Memᴰ.tail m))
            (one.kept old) in
        (all, omega arith)

-- While nothing is stale the parents are pushed as they are.
pub offer_parents-push_all :
    (repo : Repo) (kind : CommitParentKind) (st : Names) (oids : List Hash) (q : Queue)
    → ((name : Bytes) → contains st name ≡ false)
    → offer_parents repo kind false st oids q ≡ push_all repo kind oids q
unfolding offer_parents offer_parent push_all
offer_parents-push_all repo kind st [] q h = refl
offer_parents-push_all repo kind st (oid ∷ oids) q h =
    rw (h (hex oid), offer_parent)
      (ap (λ (f : Queue → Result Queue). push_parent repo kind oid q >>= f)
        (λ i q'. offer_parents-push_all repo kind st oids q' h i))

-- The only errors are those of reading a parent.
offer_parent-ne-err :
    (repo : Repo) (e : Error) (kind : CommitParentKind) (stale : Bool) (oid : Hash) (q : Queue)
    → ((oid : Hash) → new_object repo oid true ≢ err e)
    → offer_parent repo kind stale oid q ≢ err e
unfolding offer_parent
offer_parent-ne-err repo e kind false oid q quiet h = push_parent-ne-err repo kind e oid q quiet h
offer_parent-ne-err repo e kind true oid q quiet h = elim (Option-cases (index_of oid q)) [
  | inl none' ↦
      push_parent-ne-err repo commit_parent_stale e oid q quiet (rw (none', offer_parent) at h)
  | inr (i, some') ↦ absurd (cc (rw (some', offer_parent) at h))
]

pub offer_parents-ne-err :
    (repo : Repo) (e : Error) (kind : CommitParentKind) (is_base : Bool) (st : Names)
    (oids : List Hash) (q : Queue)
    → ((oid : Hash) → new_object repo oid true ≢ err e)
    → offer_parents repo kind is_base st oids q ≢ err e
unfolding offer_parents
offer_parents-ne-err repo e kind is_base st [] q quiet h = absurd (cc h)
offer_parents-ne-err repo e kind is_base st (oid ∷ oids) q quiet h =
    let stale : Bool = is_base || contains st (hex oid) in
    elim (Result-cases (offer_parent repo kind stale oid q)) [
      | inl (q', now) ↦
          offer_parents-ne-err repo e kind is_base st oids q' quiet (rw (now, offer_parents) at h)
      | inr (e', now) ↦
          let same : e' ≡ e = cc (rw (now, offer_parents) at h) in
          offer_parent-ne-err repo e kind stale oid q quiet (now ∙ ap err same)
    ]
