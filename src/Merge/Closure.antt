-- ===== src/Merge/Closure.antt =====
-- While no commit was met from both ends, `commonAncestor` is a search from each: what it has met is
-- closed under parents, up to what waits in the queue.
use go_repo_dojo.Base.{
  contains, ◌≡◌, refl, sym, ap, ◌∙◌, subst, true, false, ◌&&◌, ◌⊎◌, inl, inr, [], ◌∷◌, Bytes, All,
  ok,
}
use go_repo_dojo.Hash.{Hash, hex}
use go_repo_dojo.Repo.{Repo, Object, new_object}
use go_repo_dojo.Heap.Kept.{Permᴰ-Memᴰ, Permᴰ-All}
use go_repo_dojo.Merge.{
  CommitParentKind, commit_parent_one, commit_parent_two, commit_parent_stale, CommitParent, Queue,
  parent_oids_of, push_all, Ancestry, is_stale_kind, all_stale,
}
use go_repo_dojo.Merge.Graph.{
  Parent, Walk, here, step, node_of, push_all-All, push_all-old, push_all-new,
}
use go_repo_dojo.Merge.Descent.{IsSide, own}
use go_repo_dojo.Merge.MetNames.{
  Parent-renamed, met_first, met_first-grown, met_first_self, met_first-cases, met_first-apart,
  meet-no_both, meet-no_stale,
}
use go_repo_dojo.Merge.Marks.{met, met_across}
use mathlib.Core.List.{Permᴰ, Memᴰ}
use mathlib.Core.List.Memᴰ

module _ (repo : Repo) (oid1 oid2 : Hash) where
  -- A name was met from an end, or a node of that end with this name waits.
  abbrev pub Sighted : CommitParentKind → Ancestry → Bytes → Type 0
  Sighted k s name =
      (contains (met k s) name ≡ true)
      ⊎ ((n : CommitParent) × (Memᴰ n s.queue × ((n.kind ≡ k) × (hex n.oid ≡ name))))

  pub record IsClosed (s : Ancestry) : Type 0 where
    pub no_both : (name : Bytes) → contains s.parents_of_both_set name ≡ false
    pub no_stale : (name : Bytes) → contains s.stale_oids name ≡ false
    pub sides : All (λ (n : CommitParent). IsSide n.kind) s.queue
    pub start : (k : CommitParentKind) → IsSide k → Sighted k s (hex (own oid1 oid2 k))
    pub parents :
        (k : CommitParentKind) (a p : Hash)
        → IsSide k
        → contains (met k s) (hex a) ≡ true
        → Parent repo a p
        → Sighted k s (hex p)
    pub apart :
        (name : Bytes) → contains s.parents_of1 name ≡ true → contains s.parents_of2 name ≡ false

  -- Where nothing waits, everything that an end reaches was met from it.
  met_all :
      (k : CommitParentKind) (s : Ancestry) {c : Hash}
      → IsSide k
      → IsClosed s
      → s.queue ≡ []
      → Walk repo (own oid1 oid2 k) c
      → contains (met k s) (hex c) ≡ true
  met_all k s side h e here = elim (h.start k side) [
    | inl t ↦ t
    | inr (n, (m, rest)) ↦ absurd (Memᴰ.not-nil (subst (Memᴰ n) e m))
  ]
  met_all k s side h e (step {b} {c} v p) = elim (h.parents k b c side (met_all k s side h e v) p) [
    | inl t ↦ t
    | inr (n, (m, rest)) ↦ absurd (Memᴰ.not-nil (subst (Memᴰ n) e m))
  ]

  pub nothing_common :
      (s : Ancestry) (c : Hash)
      → IsClosed s
      → s.queue ≡ []
      → Walk repo oid1 c
      → Walk repo oid2 c
      → ⊥
  nothing_common s c h e v u =
      let one = met_all commit_parent_one s tt h e v in
      let two = met_all commit_parent_two s tt h e u in
      let none' = h.apart (hex c) one in cc (sym two ∙ none')

  -- A queue of sides that is all stale is empty.
  pub sides-all_stale :
      (q : Queue) → All (λ (n : CommitParent). IsSide n.kind) q → all_stale q ≡ true → q ≡ []
  unfolding all_stale is_stale_kind
  sides-all_stale [] h e = refl
  sides-all_stale (n ∷ q) (side, h) e = absurd (go n.kind side e)
    where
      go : (k : CommitParentKind) → IsSide k → is_stale_kind k && all_stale q ≡ true → ⊥
      go commit_parent_one side e' = cc e'
      go commit_parent_two side e' = cc e'
      go commit_parent_stale side e' = side

  -- A node that was met before goes out of the queue.
  pub skip-IsClosed :
      (s : Ancestry) (node : CommitParent) (rest : Queue)
      → Permᴰ s.queue (node ∷ rest)
      → contains (met node.kind s) (hex node.oid) ≡ true
      → IsClosed s
      → IsClosed (record s { queue = rest })
  skip-IsClosed s node rest perm known h = record {
    no_both = h.no_both;
    no_stale = h.no_stale;
    sides = (Permᴰ-All (λ (n : CommitParent). IsSide n.kind) perm h.sides).1;
    start = λ k side. still k (h.start k side);
    parents = λ k a p side m e. still k (h.parents k a p side (same k a m) e);
    apart = h.apart;
  }
    where
      same :
          (k : CommitParentKind) (a : Hash)
          → contains (met k (record s { queue = rest })) (hex a) ≡ true
          → contains (met k s) (hex a) ≡ true
      same commit_parent_one a m = m
      same commit_parent_two a m = m
      same commit_parent_stale a m = m

      back :
          (k : CommitParentKind) (name : Bytes)
          → contains (met k s) name ≡ true
          → contains (met k (record s { queue = rest })) name ≡ true
      back commit_parent_one a m = m
      back commit_parent_two a m = m
      back commit_parent_stale a m = m

      still :
          {name : Bytes} (k : CommitParentKind)
          → Sighted k s name
          → Sighted k (record s { queue = rest }) name
      still {name} k (inl t) = inl (back k name t)
      still {name} k (inr (n, (m, (e, at)))) = elim (Memᴰ.cases_cons (Permᴰ-Memᴰ perm m)) [
        | inr later ↦ inr (n, (later, (e, at)))
        | inl now ↦
            let kinds : node.kind ≡ k = ap (λ (x : CommitParent). x.kind) (sym now) ∙ e in
            let names : hex node.oid ≡ name = ap (λ (x : CommitParent). hex x.oid) (sym now) ∙ at in
            inl (
              back k name (
                subst (λ x. contains (met x s) name ≡ true) kinds
                  (subst (λ x. contains (met node.kind s) x ≡ true) names known)))
      ]

  -- A node that is met for the first time, and its parents, which come to stand in the queue.
  module _ (s : Ancestry) (node : CommitParent) (o : Object) (rest q' : Queue)
      (perm : Permᴰ s.queue (node ∷ rest)) (side0 : IsSide node.kind)
      (read : new_object repo node.oid true ≡ ok o)
      (pushed : push_all repo node.kind (parent_oids_of o.commit) rest ≡ ok q') where
    abbrev onward : Ancestry
    onward = met_first node.kind (hex node.oid) q' s

    sighted_still : (k : CommitParentKind) (name : Bytes) → Sighted k s name → Sighted k onward name
    sighted_still k name (inl t) = inl (met_first-grown k node.kind name (hex node.oid) q' s t)
    sighted_still k name (inr (n, (m, (e, at)))) = elim (Memᴰ.cases_cons (Permᴰ-Memᴰ perm m)) [
      | inr later ↦
          inr (
            n,
            (push_all-old repo node.kind (parent_oids_of o.commit) rest q' pushed later, (e, at)),
          )
      | inl now ↦
          let kinds : node.kind ≡ k = ap (λ (x : CommitParent). x.kind) (sym now) ∙ e in
          let names : hex node.oid ≡ name = ap (λ (x : CommitParent). hex x.oid) (sym now) ∙ at in
          inl (
            subst (λ x. contains (met x onward) name ≡ true) kinds
              (subst (λ x. contains (met node.kind onward) x ≡ true) names
                (met_first_self node.kind (hex node.oid) q' s)))
    ]

    -- The node's own parents wait now.
    sighted_parent :
        (a p : Hash) → hex node.oid ≡ hex a → Parent repo a p → Sighted node.kind onward (hex p)
    sighted_parent a p e parent =
        let (o', read', m) = Parent-renamed repo a node.oid p (sym e) parent in
        let same : o' ≡ o = cc (sym read' ∙ read) in
        let (ts, m') =
          push_all-new repo node.kind (parent_oids_of o.commit) rest q' pushed
            (subst (λ (x : Object). Memᴰ p (parent_oids_of x.commit)) same m) in
        inr (node_of node.kind p ts, (m', (refl, refl)))

    pub first-IsClosed :
        contains (met_across node.kind s) (hex node.oid) ≡ false → IsClosed s → IsClosed onward
    first-IsClosed fresh h = record {
      no_both = λ name.
          ap (λ m. contains m name) (meet-no_both node.kind (hex node.oid) s) ∙ h.no_both name;
      no_stale = λ name.
          ap (λ m. contains m name) (meet-no_stale node.kind (hex node.oid) s) ∙ h.no_stale name;
      sides =
          push_all-All repo node.kind (λ n. IsSide n.kind) (parent_oids_of o.commit) rest q' pushed
            (λ p o' ts m read'. side0) (Permᴰ-All (λ n. IsSide n.kind) perm h.sides).1;
      start = λ k side. sighted_still k (hex (own oid1 oid2 k)) (h.start k side);
      parents = λ k a p side m parent.
          from k a p side parent
            (met_first-cases k node.kind (hex a) (hex node.oid) q' s side side0 m);
      apart = λ name. met_first-apart node.kind name (hex node.oid) q' s side0 fresh (h.apart name);
    }
      where
        from :
            (k : CommitParentKind) (a p : Hash)
            → IsSide k
            → Parent repo a p
            → (contains (met k s) (hex a) ≡ true) ⊎ ((node.kind ≡ k) × (hex node.oid ≡ hex a))
            → Sighted k onward (hex p)
        from k a p side parent (inl t) = sighted_still k (hex p) (h.parents k a p side t parent)
        from k a p side parent (inr (e, same)) =
            subst (λ x. Sighted x onward (hex p)) e (sighted_parent a p same parent)
