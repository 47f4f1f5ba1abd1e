-- ===== src/Merge/OwnErrors.antt =====
-- The errors of `getDescendent` that are not its own come from the store.
use go_repo_dojo.Base.{
  after, ℕ, zero, suc, ◌≡◌, ◌≢◌, refl, ap, ◌∙◌, true, Bool-cases, inl, inr, Option, some, [], ◌∷◌,
  Result, Result-cases, err, Error, descendent_not_found,
}
use go_repo_dojo.Hash.{Hash}
use go_repo_dojo.Repo.{Repo, new_object}
use go_repo_dojo.Heap.Kept.{pop-Permᴰ}
use go_repo_dojo.Merge.{
  CommitParentKind, commit_parent_one, commit_parent_two, CommitParent, Queue, newer, same_oid,
  parent_oids_of, push_parents, Verdict, found, passed_over, followed, judge, descend_from, descend,
  start_descent, get_descendent,
}
use go_repo_dojo.Merge.Graph.{push_all-ne-err}

-- The only error of the loop itself is that there is no descendent.
module _ (repo : Repo) (oid1 oid2 : Hash) (e : Error) (foreign : descendent_not_found ≢ e)
    (quiet : (oid : Hash) → new_object repo oid true ≢ err e) where
  push_parents-ne-err :
      (kind : CommitParentKind) (oid : Hash) (q : Queue) → push_parents repo kind oid q ≢ err e
  unfolding push_parents
  push_parents-ne-err kind oid q h = elim (Result-cases (new_object repo oid true)) [
    | inl (o, read) ↦
        push_all-ne-err repo kind e (parent_oids_of o.commit) q quiet (rw (read, push_parents) at h)
    | inr (e', read) ↦
        let same : e' ≡ e = cc (rw (read, push_parents) at h) in quiet oid (read ∙ ap err same)
  ]

  after_push-ne-err :
      (kind : CommitParentKind) (oid : Hash) (q : Queue) (next : Queue → Option (Result Hash))
      → ((q' : Queue) → next q' ≢ some (err e))
      → after (push_parents repo kind oid q) next ≢ some (err e)
  after_push-ne-err kind oid q next go h = elim (Result-cases (push_parents repo kind oid q)) [
    | inl (q', now) ↦ go q' (rw (now, after) at h)
    | inr (e', now) ↦
        let same : e' ≡ e = cc (rw (now, after) at h) in
        push_parents-ne-err kind oid q (now ∙ ap err same)
  ]

  descend-ne-err : (fuel : ℕ) (q : Queue) → descend repo oid1 oid2 fuel q ≢ some (err e)
  unfolding descend descend_from
  descend-ne-err fuel [] h = foreign (cc h)
  descend-ne-err zero (n ∷ q) h = cc h
  descend-ne-err (suc fuel) (n ∷ q) h =
      let (node, rest, popped, perm) = pop-Permᴰ newer n q in
      go (λ q'. descend-ne-err fuel q') (judge oid1 oid2 node.kind node.oid) node rest refl
        (rw popped at h)
    where
      go :
          ((q' : Queue) → descend repo oid1 oid2 fuel q' ≢ some (err e))
          → (v : Verdict) (node : CommitParent) (rest : Queue)
          → judge oid1 oid2 node.kind node.oid ≡ v
          → descend_from repo oid1 oid2 (descend repo oid1 oid2 fuel) (some (node, rest))
            ≡ some (err e)
          → ⊥
      go later (found x) node rest eq k = cc (rw (eq, descend_from) at k)
      go later passed_over node rest eq k = later rest (rw (eq, descend_from) at k)
      go later followed node rest eq k =
          after_push-ne-err node.kind node.oid rest (descend repo oid1 oid2 fuel) later
            (rw (eq, descend_from) at k)

  pub get_descendent-ne-err : (fuel : ℕ) → get_descendent repo oid1 oid2 fuel ≢ some (err e)
  unfolding get_descendent start_descent
  get_descendent-ne-err fuel h = elim (Bool-cases (same_oid oid1 oid2)) [
    | inl same ↦ absurd (cc (rw (same, get_descendent) at h))
    | inr apart ↦
        let k = rw (apart, get_descendent) at h in
        elim (Result-cases (push_parents repo commit_parent_one oid1 [])) [
          | inr (e', now) ↦
              let same : e' ≡ e = cc (rw (now, after) at k) in
              push_parents-ne-err commit_parent_one oid1 [] (now ∙ ap err same)
          | inl (q1, now) ↦
              after_push-ne-err commit_parent_two oid2 q1 (descend repo oid1 oid2 fuel)
                (λ q'. descend-ne-err fuel q') (rw (now, after) at k)
        ]
  ]
