-- ===== src/Merge/Ancestor.antt =====
-- `commonAncestor`: the search ends, and a hash that it returns is reached from both commits.
use go_repo_dojo.Base.{
  Ends, after, after_loop, contains, ℕ, ◌+◌, ◌*◌, ◌≤◌, ◌≡◌, refl, sym, ap, ◌∙◌, subst, true,
  Bool-cases, inl, inr, Option, none, some, List, [], ◌∷◌, Bytes, map_get, All, Result, ok, err,
  Error, no_common_ancestor, arith,
}
use go_repo_dojo.Hash.{Hash, hex}
use go_repo_dojo.Commit.{CommitContent}
use go_repo_dojo.Repo.{Repo, Object, new_object}
use go_repo_dojo.Heap.{push}
use go_repo_dojo.Heap.Kept.{Permᴰ-total, Permᴰ-All, Permᴰ-Memᴰ, push-Permᴰ}
use go_repo_dojo.Merge.{
  CommitParentKind, commit_parent_one, commit_parent_two, commit_parent_stale, CommitParent, Queue,
  newer, same_oid, Searched, returned, bases, walk_queue, push_start, get_descendent, descend_all,
  best_base, settle, start_walk, start_search, common_ancestor,
}
use go_repo_dojo.Merge.Graph.{same_oid-hex, Walk, here, Weighs, node_weight, node_of}
use go_repo_dojo.Merge.Descent.{IsSide, own, get_descendent_correct, IsDescendent, NoDescendent}
use go_repo_dojo.Merge.OwnErrors.{get_descendent-ne-err}
use go_repo_dojo.Merge.Marks.{met}
use go_repo_dojo.Merge.Closure.{Sighted}
use go_repo_dojo.Merge.Rounds.{
  IsCommon, IsQuiet, weights, Seen, Shared, Inv, NothingShared, Found, Other, walk_queue-Ends,
}
use mathlib.Core.List.{Permᴰ, Memᴰ}
use mathlib.Core.List.Permᴰ

-- The object is a commit.
abbrev pub IsCommit : Repo → Hash → Type 0
IsCommit repo oid =
    (o : Object) × (c : CommitContent) × (new_object repo oid true ≡ ok o) × (o.commit ≡ some c)

module _ (repo : Repo) (w : Bytes → ℕ) (oid1 oid2 : Hash) (weighs : Weighs repo w)
    (quiet : IsQuiet repo) where
  push_start-ok :
      (k : CommitParentKind) (oid : Hash) (q : Queue)
      → IsCommit repo oid
      → (ts : ℕ) × (push_start repo k oid q ≡ ok (push newer (node_of k oid ts) q))
  unfolding push_start
  push_start-ok k oid q (o, c, read, is_commit) = (c.timestamp, rw (read, is_commit) refl)

  -- The search starts from the two commits.
  start_walk-Inv :
      (q : Queue) (ts1 ts2 : ℕ)
      → IsCommit repo oid1
      → IsCommit repo oid2
      → Permᴰ q (node_of commit_parent_two oid2 ts2 ∷ node_of commit_parent_one oid1 ts1 ∷ [])
      → Inv repo w oid1 oid2 (start_walk q)
  unfolding start_walk contains map_get
  start_walk-Inv q ts1 ts2 (o1, c1, read1, is1) (o2, c2, read2, is2) perm =
      let heavy1 = weighs oid1 o1 read1 in
      let heavy2 = weighs oid2 o2 read2 in
      record {
        seen =
            Permᴰ-All (Seen repo w oid1 oid2) (Permᴰ.symm perm)
              ((here, (omega arith, omega arith)), ((here, (omega arith, omega arith)), tt));
        named1 = λ name h. absurd (cc h);
        named2 = λ name h. absurd (cc h);
        both = tt;
        closed = λ e. record {
          no_both = λ name. refl;
          no_stale = λ name. refl;
          sides = Permᴰ-All (λ (n : CommitParent). IsSide n.kind) (Permᴰ.symm perm) (tt, (tt, tt));
          start = begins;
          parents = λ k a p side h parent. absurd (never k (hex a) h);
          apart = λ name h. refl;
        };
      }
    where
      begins :
          (k : CommitParentKind)
          → IsSide k
          → Sighted repo oid1 oid2 k (start_walk q) (hex (own oid1 oid2 k))
      begins commit_parent_one side = inr (
        node_of commit_parent_one oid1 ts1,
        (Permᴰ-Memᴰ (Permᴰ.symm perm) (Memᴰ.tail (Memᴰ.head refl)), (refl, refl)),
      )
      begins commit_parent_two side = inr (
        node_of commit_parent_two oid2 ts2,
        (Permᴰ-Memᴰ (Permᴰ.symm perm) (Memᴰ.head refl), (refl, refl)),
      )
      begins commit_parent_stale side = absurd side

      never :
          (k : CommitParentKind) (name : Bytes) → contains (met k (start_walk q)) name ≡ true → ⊥
      never commit_parent_one name h = cc h
      never commit_parent_two name h = cc h
      never commit_parent_stale name h = cc h

  abbrev Common : Hash → Type 0
  Common r = IsCommon repo oid1 oid2 (hex r)

  abbrev NoneCommon : Error → Type 0
  NoneCommon e = e ≡ no_common_ancestor → NothingShared repo w oid1 oid2

  -- Of several shared hashes one is returned, or an error that is not "no common ancestor".
  descend_all-Ends :
      (fuel : ℕ) (r : Hash) (hs : List Hash)
      → 2 * weights repo w oid1 oid2 ≤ fuel
      → Shared repo w oid1 oid2 r
      → All (Shared repo w oid1 oid2) hs
      → Ends Common NoneCommon (descend_all repo fuel r hs)
  unfolding descend_all
  descend_all-Ends fuel r [] enough shared all = shared.0
  descend_all-Ends fuel r (h ∷ hs) enough shared (now, all) =
      let bound1 = shared.1 in
      let bound2 = now.1 in
      go (λ x sx. descend_all-Ends fuel x hs enough sx all) (get_descendent repo r h fuel) refl
        (get_descendent_correct repo w r h fuel weighs (λ oid. (quiet oid).0) (omega arith))
    where
      go :
          ((x : Hash)
            → Shared repo w oid1 oid2 x
            → Ends Common NoneCommon (descend_all repo fuel x hs))
          → (d : Option (Result Hash)) → get_descendent repo r h fuel ≡ d
          → Ends (IsDescendent repo r h) (NoDescendent repo r h) d
          → Ends Common NoneCommon (after_loop d (λ x. descend_all repo fuel x hs))
      go later none e stuck' = stuck'
      go later (some (ok x)) e (inl (same, named)) =
          later x (subst (Shared repo w oid1 oid2) (sym same) shared)
      go later (some (ok x)) e (inr (same, named)) =
          later x (subst (Shared repo w oid1 oid2) (sym same) now)
      go later (some (err x)) e refused = λ same. absurd (
          get_descendent-ne-err repo r h no_common_ancestor (λ d. cc d) (λ oid. (quiet oid).1) fuel
            (e ∙ ap (λ y. some (err y)) same))

  settle-Ends :
      (fuel : ℕ) (d : Searched)
      → 2 * weights repo w oid1 oid2 ≤ fuel
      → Found repo w oid1 oid2 d
      → Ends Common NoneCommon (settle repo fuel d)
  unfolding settle best_base
  settle-Ends fuel (returned h) enough common = common
  settle-Ends fuel (bases []) enough (all, nothing) = λ same. nothing refl
  settle-Ends fuel (bases (h ∷ hs)) enough ((shared, all), nothing) =
      descend_all-Ends fuel h hs enough shared all

  after_loop-Ends :
      (fuel : ℕ) (d : Option (Result Searched))
      → 2 * weights repo w oid1 oid2 ≤ fuel
      → Ends (Found repo w oid1 oid2) (Other repo w oid1 oid2) d
      → Ends Common NoneCommon (after_loop d (settle repo fuel))
  after_loop-Ends fuel none enough h = h
  after_loop-Ends fuel (some (ok d)) enough h = settle-Ends fuel d enough h
  after_loop-Ends fuel (some (err e)) enough h = λ same. absurd (h same)

  search-Ends :
      (fuel : ℕ)
      → IsCommit repo oid1
      → IsCommit repo oid2
      → 2 * weights repo w oid1 oid2 ≤ fuel
      → Ends Common NoneCommon (
          after
            (start_search repo oid1 oid2)
            (λ q. after_loop (walk_queue repo oid1 oid2 fuel q (start_walk q)) (settle repo fuel)))
  unfolding start_search
  search-Ends fuel is1 is2 enough =
      let (ts1, e1) = push_start-ok commit_parent_one oid1 [] is1 in
      let q1 = push newer (node_of commit_parent_one oid1 ts1) [] in
      let (ts2, e2) = push_start-ok commit_parent_two oid2 q1 is2 in
      let q2 = push newer (node_of commit_parent_two oid2 ts2) q1 in
      let perm : Permᴰ q2
          (node_of commit_parent_two oid2 ts2 ∷ node_of commit_parent_one oid1 ts1 ∷ []) =
        Permᴰ.trans (push-Permᴰ newer (node_of commit_parent_two oid2 ts2) q1)
          (Permᴰ.cons refl (push-Permᴰ newer (node_of commit_parent_one oid1 ts1) [])) in
      let sum = Permᴰ-total (node_weight w) perm in
      rw (e1, e2, after)
        (after_loop-Ends fuel (walk_queue repo oid1 oid2 fuel q2 (start_walk q2)) enough (
          walk_queue-Ends repo w oid1 oid2 weighs quiet fuel q2 (start_walk q2)
            (unfold start_walk in refl) (start_walk-Inv q2 ts1 ts2 is1 is2 perm) (omega arith)))

-- Where a readable object outweighs its parents together, both hashes are those of commits, and the
-- store's errors are neither "descendent not found" nor "no common ancestor", fuel of twice the two
-- weights is enough for `commonAncestor` to end. The name of a hash that it returns is that of a
-- commit which a walk over parents reaches from the one commit, and of one which such a walk reaches
-- from the other. If it says that there is no common ancestor, no hash is reached from both.
pub common_ancestor_correct :
    (repo : Repo) (w : Bytes → ℕ) (oid1 oid2 : Hash) (fuel : ℕ)
    → Weighs repo w
    → IsQuiet repo
    → IsCommit repo oid1
    → IsCommit repo oid2
    → 2 * (w (hex oid1) + w (hex oid2)) ≤ fuel
    → Ends
        (λ r. IsCommon repo oid1 oid2 (hex r))
        (λ e. e ≡ no_common_ancestor → (c : Hash) → Walk repo oid1 c → Walk repo oid2 c → ⊥)
        (common_ancestor repo oid1 oid2 fuel)
unfolding common_ancestor
common_ancestor_correct repo w oid1 oid2 fuel weighs quiet is1 is2 enough =
    elim (Bool-cases (same_oid oid1 oid2)) [
      | inr apart ↦
          rw (apart, common_ancestor)
            (search-Ends repo w oid1 oid2 weighs quiet fuel is1 is2 enough)
      | inl same ↦
          rw (same, common_ancestor)
            ((oid1, here, refl), (oid2, here, sym (same_oid-hex oid1 oid2 same)))
    ]
