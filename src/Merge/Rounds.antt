-- ===== src/Merge/Rounds.antt =====
-- The rounds of `commonAncestor`: what waits is reached from its end, and what was met from both is
-- shared.
use go_repo_dojo.Base.{
  Ends, Names, after, contains, ℕ, zero, suc, ◌+◌, ◌≤◌, ◌<◌, ◌≡◌, ◌≢◌, refl, sym, ap, ◌∙◌, subst,
  Bool, true, false, Bool-cases, ◌⊎◌, inl, inr, Option, some, List, [], ◌∷◌, ◌++◌, Bytes, map_set,
  All, All-append, Result, Result-cases, ok, err, Error, descendent_not_found, no_common_ancestor,
  arith,
}
use go_repo_dojo.Hash.{Hash, hex}
use go_repo_dojo.Repo.{Repo, Object, new_object}
use go_repo_dojo.Heap.Kept.{total, Permᴰ-total, Permᴰ-All, pop-Permᴰ}
use go_repo_dojo.Merge.{
  CommitParentKind, commit_parent_one, commit_parent_two, commit_parent_stale, CommitParent, Queue,
  newer, parent_oids_of, push_all, Ancestry, add_to_both, Marked, marked, mark, all_stale,
  offer_parents, expand, Searched, returned, bases, walk_on, walk_from, walk_queue,
}
use go_repo_dojo.Merge.Graph.{
  same_oid-hex, Parent, Walk, here, step, Named, Weighs, node_weight, Descends-lighter,
}
use go_repo_dojo.Merge.Descent.{IsSide, own, other}
use go_repo_dojo.Merge.Marks.{
  met, met_across, meet, MarkedCase, at_other, at_both, again, first, mark-MarkedCase,
  offer_parents-All, offer_parents-push_all, offer_parents-ne-err,
}
use go_repo_dojo.Merge.Closure.{
  IsClosed, nothing_common, sides-all_stale, skip-IsClosed, first-IsClosed,
}
use go_repo_dojo.Merge.MetNames.{met_first, met_first-cases, meet-both, meet-no_both, meet-no_stale}
use mathlib.Core.List.{Permᴰ}

-- The name is one of a commit that both reach.
abbrev pub IsCommon : Repo → Hash → Hash → Bytes → Type 0
IsCommon repo oid1 oid2 name = Named repo oid1 name × Named repo oid2 name

-- The store's errors are its own.
abbrev pub IsQuiet : Repo → Type 0
IsQuiet repo =
    (oid : Hash)
    → (new_object repo oid true ≢ err descendent_not_found)
      × (new_object repo oid true ≢ err no_common_ancestor)

module _ (repo : Repo) (w : Bytes → ℕ) (oid1 oid2 : Hash) where
  abbrev pub From : CommitParentKind → Hash → Type 0
  From commit_parent_one oid = Walk repo oid1 oid
  From commit_parent_two oid = Walk repo oid2 oid
  From commit_parent_stale oid = Unit {0}

  From-step : (k : CommitParentKind) (a b : Hash) → From k a → Parent repo a b → From k b
  From-step commit_parent_one a b v p = step v p
  From-step commit_parent_two a b v p = step v p
  From-step commit_parent_stale a b v p = tt

  From-own : (k : CommitParentKind) (a : Hash) → IsSide k → From k a → Walk repo (own oid1 oid2 k) a
  From-own commit_parent_one a side v = v
  From-own commit_parent_two a side v = v
  From-own commit_parent_stale a side v = absurd side

  abbrev pub weights : ℕ
  weights = w (hex oid1) + w (hex oid2)

  -- A waiting node is reached from its end, and has a weight that is bounded.
  abbrev pub Seen : CommitParent → Type 0
  Seen n = From n.kind n.oid × ((0 < w (hex n.oid)) × (w (hex n.oid) ≤ weights))

  abbrev pub Shared : Hash → Type 0
  Shared h = IsCommon repo oid1 oid2 (hex h) × (w (hex h) ≤ weights)

  pub record Inv (s : Ancestry) : Type 0 where
    pub seen : All Seen s.queue
    pub named1 : (name : Bytes) → contains s.parents_of1 name ≡ true → Named repo oid1 name
    pub named2 : (name : Bytes) → contains s.parents_of2 name ≡ true → Named repo oid2 name
    pub both : All Shared s.parents_of_both
    pub closed : s.parents_of_both ≡ [] → IsClosed repo oid1 oid2 s

  abbrev pub NothingShared : Type 0
  NothingShared = (c : Hash) → Walk repo oid1 c → Walk repo oid2 c → ⊥

  abbrev pub Found : Searched → Type 0
  Found (returned h) = IsCommon repo oid1 oid2 (hex h)
  Found (bases hs) = All Shared hs × (hs ≡ [] → NothingShared)

  abbrev pub Other : Error → Type 0
  Other e = e ≢ no_common_ancestor

  -- The search may end where nothing waits but stale nodes.
  Inv-bases : (s : Ancestry) → Inv s → all_stale s.queue ≡ true → Found (bases s.parents_of_both)
  Inv-bases s h e = (
    h.both,
    λ none' c v u.
        let closed = h.closed none' in
        nothing_common repo oid1 oid2 s c closed
          (sides-all_stale repo oid1 oid2 s.queue closed.sides e) v u,
  )

  Named-own :
      (k : CommitParentKind) (s : Ancestry) (name : Bytes)
      → IsSide k
      → Inv s
      → contains (met k s) name ≡ true
      → Named repo (own oid1 oid2 k) name
  Named-own commit_parent_one s name side h e = h.named1 name e
  Named-own commit_parent_two s name side h e = h.named2 name e
  Named-own commit_parent_stale s name side h e = absurd side

  -- A node met from the other end too is shared.
  Shared-node :
      (k : CommitParentKind) (s : Ancestry) (oid : Hash)
      → IsSide k
      → Inv s
      → From k oid
      → w (hex oid) ≤ weights
      → contains (met_across k s) (hex oid) ≡ true
      → Shared oid
  Shared-node commit_parent_one s oid side h v bound e =
      (((oid, v, refl), h.named2 (hex oid) e), bound)
  Shared-node commit_parent_two s oid side h v bound e =
      ((h.named1 (hex oid) e, (oid, v, refl)), bound)
  Shared-node commit_parent_stale s oid side h v bound e = absurd side

  IsCommon-other :
      (k : CommitParentKind) (oid : Hash)
      → IsSide k
      → From k oid
      → hex oid ≡ hex (other oid1 oid2 k)
      → IsCommon repo oid1 oid2 (hex (other oid1 oid2 k))
  IsCommon-other commit_parent_one oid side v e = ((oid, v, e), (oid2, here, refl))
  IsCommon-other commit_parent_two oid side v e = ((oid1, here, refl), (oid, v, e))
  IsCommon-other commit_parent_stale oid side v e = absurd side

  kind_cases : (k : CommitParentKind) → IsSide k ⊎ (k ≡ commit_parent_stale)
  kind_cases commit_parent_one = inl tt
  kind_cases commit_parent_two = inl tt
  kind_cases commit_parent_stale = inr refl

  mark-stale :
      (k : CommitParentKind) (oid : Hash) (s : Ancestry)
      → k ≡ commit_parent_stale
      → mark oid1 oid2 k oid s
        ≡ marked (record s { stale_oids = map_set (hex oid) true s.stale_oids })
  unfolding mark
  mark-stale k oid s e = rw e

  add_to_both-kept :
      (oid : Hash) (s : Ancestry)
      → ((add_to_both oid s).queue ≡ s.queue)
        × ((add_to_both oid s).parents_of1 ≡ s.parents_of1)
        × ((add_to_both oid s).parents_of2 ≡ s.parents_of2)
  unfolding add_to_both
  add_to_both-kept oid s = elim (Bool-cases (contains s.parents_of_both_set (hex oid))) [
    | inl e ↦ rw e (refl, refl, refl)
    | inr e ↦ rw e (refl, refl, refl)
  ]

  add_to_both-All :
      (oid : Hash) (s : Ancestry)
      → Shared oid
      → All Shared s.parents_of_both
      → All Shared (add_to_both oid s).parents_of_both
  unfolding add_to_both
  add_to_both-All oid s new old = elim (Bool-cases (contains s.parents_of_both_set (hex oid))) [
    | inl e ↦ rw e old
    | inr e ↦ rw e (All-append Shared s.parents_of_both (oid ∷ []) old (new, tt))
  ]

  append-one : (hs : List Hash) (h : Hash) → hs ++ (h ∷ []) ≢ []
  append-one [] h e = cc e
  append-one (x ∷ hs) h e = cc e

  add_to_both-ne-nil :
      (oid : Hash) (s : Ancestry)
      → (s.parents_of_both ≡ [] → contains s.parents_of_both_set (hex oid) ≡ false)
      → (add_to_both oid s).parents_of_both ≢ []
  unfolding add_to_both
  add_to_both-ne-nil oid s closed h = elim (Bool-cases (contains s.parents_of_both_set (hex oid))) [
    | inl e ↦ let unset = closed (rw (e, add_to_both) at h) in absurd (cc (sym e ∙ unset))
    | inr e ↦ append-one s.parents_of_both oid (rw (e, add_to_both) at h)
  ]

  module _ (weighs : Weighs repo w) (quiet : IsQuiet repo) (fuel : ℕ)
      (next : Ancestry → Option (Result Searched))
      (go_on : (s : Ancestry)
        → Inv s
        → total (node_weight w) s.queue ≤ fuel
        → Ends Found Other (next s))
      (node : CommitParent) (rest : Queue) (s : Ancestry) (perm : Permᴰ s.queue (node ∷ rest))
      (inv : Inv s) (enough : total (node_weight w) s.queue ≤ suc fuel) where
    abbrev popped : Ancestry
    popped = record s { queue = rest }

    node-Seen : Seen node
    node-Seen = (Permᴰ-All Seen perm inv.seen).0

    rest-Seen : All Seen rest
    rest-Seen = (Permᴰ-All Seen perm inv.seen).1

    rest_enough : total (node_weight w) rest ≤ fuel
    rest_enough =
        let (v, (pos, bound)) = node-Seen in
        let sum = Permᴰ-total (node_weight w) perm in omega arith

    -- The parents that come to wait.
    offered-Seen :
        (o : Object) (is_base : Bool) (st : Names) (q' : Queue)
        → new_object repo node.oid true ≡ ok o
        → offer_parents repo node.kind is_base st (parent_oids_of o.commit) rest ≡ ok q'
        → All Seen q' × (total (node_weight w) q' ≤ fuel)
    offered-Seen o is_base st q' read h =
        let (v, (pos, bound)) = node-Seen in
        let (all, sum) =
          offer_parents-All repo w node.kind Seen (λ n seen. (tt, seen.1)) is_base st
            (parent_oids_of o.commit) rest q' h
            (λ p o' ts m read'.
              let lighter = Descends-lighter repo w weighs (node.oid, here, (o, read, m)) in
              let heavy = weighs p o' read' in
              (From-step node.kind node.oid p v (o, read, m), (omega arith, omega arith)))
            rest-Seen in
        let light = weighs node.oid o read in
        let whole = Permᴰ-total (node_weight w) perm in (all, omega arith)

    -- The marked state, its parents offered.
    expand-Ends :
        (s' : Ancestry)
        → s'.queue ≡ rest
        → ((o : Object) (q' : Queue)
            → new_object repo node.oid true ≡ ok o
            → offer_parents repo node.kind
                (contains s'.parents_of_both_set (hex node.oid))
                s'.stale_oids
                (parent_oids_of o.commit)
                rest
              ≡ ok q'
            → All Seen q'
            → Inv (record s' { queue = q' }))
        → Ends Found Other (after (expand repo node s') (walk_on repo oid1 oid2 next))
    unfolding expand walk_on
    expand-Ends s' e keep = elim (Result-cases (new_object repo node.oid true)) [
      | inr (e', read) ↦ rw (read, after) (λ same. (quiet node.oid).1 (read ∙ ap err same))
      | inl (o, read) ↦
          let is_base : Bool = contains s'.parents_of_both_set (hex node.oid) in
          let parents = parent_oids_of o.commit in
          rw (read, e, after)
            (elim (Result-cases (offer_parents repo node.kind is_base s'.stale_oids parents rest)) [
              | inr (e', offered) ↦
                  rw (offered, after)
                    (λ same.
                      offer_parents-ne-err repo no_common_ancestor node.kind is_base s'.stale_oids
                        parents rest (λ oid. (quiet oid).1) (offered ∙ ap err same))
              | inl (q', offered) ↦
                  let (all, bound) = offered-Seen o is_base s'.stale_oids q' read offered in
                  let kept = keep o q' read offered all in
                  rw (offered, after)
                    (elim (Bool-cases (all_stale q')) [
                      | inl t ↦ rw t (Inv-bases (record s' { queue = q' }) kept t)
                      | inr t ↦ rw t (go_on (record s' { queue = q' }) kept bound)
                    ])
            ])
    ]

    -- A name met twice from one end is skipped.
    skipped-Inv :
        contains (met node.kind popped) (hex node.oid) ≡ true → IsSide node.kind → Inv popped
    skipped-Inv known side = record {
      seen = rest-Seen;
      named1 = inv.named1;
      named2 = inv.named2;
      both = inv.both;
      closed = λ none'.
          skip-IsClosed repo oid1 oid2 s node rest perm (go node.kind (hex node.oid) known)
            (inv.closed none');
    }
      where
        go :
            (k : CommitParentKind) (name : Bytes)
            → contains (met k popped) name ≡ true
            → contains (met k s) name ≡ true
        go commit_parent_one name m = m
        go commit_parent_two name m = m
        go commit_parent_stale name m = m

    -- A hash met from both ends is shared, and what is stale from now on descends from it.
    at_both-Inv :
        (q' : Queue)
        → All Seen q'
        → Shared node.oid
        → Inv (record (add_to_both node.oid popped) { queue = q' })
    at_both-Inv q' all shared =
        let (e0, e1, e2) = add_to_both-kept node.oid popped in
        record {
          seen = all;
          named1 = λ name h. inv.named1 name (subst (λ m. contains m name ≡ true) e1 h);
          named2 = λ name h. inv.named2 name (subst (λ m. contains m name ≡ true) e2 h);
          both = add_to_both-All node.oid popped shared inv.both;
          closed = λ none'. absurd (
              add_to_both-ne-nil node.oid popped (λ e. (inv.closed e).no_both (hex node.oid))
                none');
        }

    -- A name that is met for the first time.
    Named-first :
        (k : CommitParentKind) (name : Bytes) (q' : Queue)
        → IsSide k
        → IsSide node.kind
        → contains (met k (met_first node.kind (hex node.oid) q' s)) name ≡ true
        → Named repo (own oid1 oid2 k) name
    Named-first k name q' side side0 h =
        elim (met_first-cases k node.kind name (hex node.oid) q' s side side0 h) [
          | inl t ↦ Named-own k s name side inv t
          | inr (e, same) ↦
              subst (λ x. Named repo (own oid1 oid2 x) name) e
                (node.oid, From-own node.kind node.oid side0 node-Seen.0, same)
        ]

    first-Inv :
        (o : Object) (q' : Queue)
        → IsSide node.kind
        → contains (met_across node.kind s) (hex node.oid) ≡ false
        → new_object repo node.oid true ≡ ok o
        → (IsClosed repo oid1 oid2 s
            → push_all repo node.kind (parent_oids_of o.commit) rest ≡ ok q')
        → All Seen q'
        → Inv (met_first node.kind (hex node.oid) q' s)
    first-Inv o q' side fresh read pushed all =
        let same = meet-both node.kind (hex node.oid) s in
        record {
          seen = all;
          named1 = λ name h. Named-first commit_parent_one name q' tt side h;
          named2 = λ name h. Named-first commit_parent_two name q' tt side h;
          both = subst (All Shared) (sym same) inv.both;
          closed = λ none'.
              let c = inv.closed (sym same ∙ none') in
              first-IsClosed repo oid1 oid2 s node o rest q' perm side read (pushed c) fresh c;
        }

    -- The queue has no part in what was met.
    met-popped : (k : CommitParentKind) → met_across k popped ≡ met_across k s
    met-popped commit_parent_one = refl
    met-popped commit_parent_two = refl
    met-popped commit_parent_stale = refl

    meet-popped :
        (k : CommitParentKind) (name : Bytes) (q' : Queue)
        → record (meet k name popped) { queue = q' } ≡ met_first k name q' s
    meet-popped commit_parent_one name q' = refl
    meet-popped commit_parent_two name q' = refl
    meet-popped commit_parent_stale name q' = refl

    meet-rest : (k : CommitParentKind) (name : Bytes) → (meet k name popped).queue ≡ rest
    meet-rest commit_parent_one name = refl
    meet-rest commit_parent_two name = refl
    meet-rest commit_parent_stale name = refl

    first-Ends :
        IsSide node.kind
        → contains (met_across node.kind popped) (hex node.oid) ≡ false
        → Ends Found Other (
            after
              (expand repo node (meet node.kind (hex node.oid) popped))
              (walk_on repo oid1 oid2 next))
    first-Ends side fresh =
        let s' = meet node.kind (hex node.oid) popped in
        expand-Ends s' (meet-rest node.kind (hex node.oid)) (λ o q' read offered all.
          subst Inv (sym (meet-popped node.kind (hex node.oid) q')) (
            first-Inv o q' side
              (ap (λ m. contains m (hex node.oid)) (sym (met-popped node.kind)) ∙ fresh) read
              (λ c. as_pushed o q' c offered) all))
      where
        as_pushed :
            (o : Object) (q' : Queue)
            → IsClosed repo oid1 oid2 s
            → offer_parents repo node.kind
                (contains (meet node.kind (hex node.oid) popped).parents_of_both_set (hex node.oid))
                (meet node.kind (hex node.oid) popped).stale_oids
                (parent_oids_of o.commit)
                rest
              ≡ ok q'
            → push_all repo node.kind (parent_oids_of o.commit) rest ≡ ok q'
        as_pushed o q' c h =
            let name = hex node.oid in
            let no_base : contains (meet node.kind name popped).parents_of_both_set name ≡ false =
              ap (λ m. contains m name) (meet-no_both node.kind name popped) ∙ c.no_both name in
            let none_stale : (x : Bytes)
                → contains (meet node.kind name popped).stale_oids x ≡ false =
              λ x. ap (λ m. contains m x) (meet-no_stale node.kind name popped) ∙ c.no_stale x in
            sym (
              offer_parents-push_all repo node.kind (meet node.kind name popped).stale_oids
                (parent_oids_of o.commit) rest none_stale)
            ∙ (rw no_base at h)

    -- A stale node: only where something is shared already.
    stale-Ends :
        node.kind ≡ commit_parent_stale
        → Ends Found Other (
            after
              (expand repo node
                (record popped { stale_oids = map_set (hex node.oid) true s.stale_oids }))
              (walk_on repo oid1 oid2 next))
    stale-Ends stale =
        expand-Ends (record popped { stale_oids = map_set (hex node.oid) true s.stale_oids }) refl
          (λ o q' read offered all. record {
            seen = all;
            named1 = inv.named1;
            named2 = inv.named2;
            both = inv.both;
            closed = λ none'.
                let sides =
                  (Permᴰ-All (λ (n : CommitParent). IsSide n.kind) perm
                    (inv.closed none').sides).0 in
                absurd (subst IsSide stale sides);
          })

    round-Ends :
        {m : Marked}
        → IsSide node.kind
        → MarkedCase oid1 oid2 node.kind node.oid popped m
        → mark oid1 oid2 node.kind node.oid popped ≡ m
        → Ends Found Other (walk_from repo oid1 oid2 next s (some (node, rest)))
    unfolding walk_from
    round-Ends side (at_other at) e =
        rw (e, walk_from)
          (IsCommon-other node.kind node.oid side node-Seen.0
            (same_oid-hex node.oid (other oid1 oid2 node.kind) at))
    round-Ends side (at_both known) e =
        rw (e, walk_from)
          (expand-Ends (add_to_both node.oid popped) (add_to_both-kept node.oid popped).0
            (λ o q' read offered all. at_both-Inv q' all (
              Shared-node node.kind s node.oid side inv node-Seen.0 node-Seen.1.1
                (ap (λ m. contains m (hex node.oid)) (sym (met-popped node.kind)) ∙ known))))
    round-Ends side (again known) e =
        rw (e, walk_from) (go_on popped (skipped-Inv known side) rest_enough)
    round-Ends side (first fresh) e = rw (e, walk_from) (first-Ends side fresh)

    walk_from-Ends : Ends Found Other (walk_from repo oid1 oid2 next s (some (node, rest)))
    unfolding walk_from
    walk_from-Ends = elim (kind_cases node.kind) [
      | inl side ↦ round-Ends side (mark-MarkedCase oid1 oid2 node.kind node.oid popped side) refl
      | inr stale ↦ rw (mark-stale node.kind node.oid popped stale, walk_from) (stale-Ends stale)
    ]

  module _ (weighs : Weighs repo w) (quiet : IsQuiet repo) where
    pub walk_queue-Ends :
        (fuel : ℕ) (q : Queue) (s : Ancestry)
        → s.queue ≡ q
        → Inv s
        → total (node_weight w) q ≤ fuel
        → Ends Found Other (walk_queue repo oid1 oid2 fuel q s)
    unfolding walk_queue all_stale
    walk_queue-Ends fuel [] s e h enough = Inv-bases s h (ap all_stale e)
    walk_queue-Ends zero (n ∷ q) s e h enough =
        let (v, (pos, bound)) = (subst (All Seen) e h.seen).0 in absurd (omega arith)
    walk_queue-Ends (suc fuel) (n ∷ q) s e h enough =
        let (node, rest, popped', perm) = pop-Permᴰ newer n q in
        rw popped' (
          walk_from-Ends weighs quiet fuel (λ s'. walk_queue repo oid1 oid2 fuel s'.queue s')
            (λ s' h' enough'. walk_queue-Ends fuel s'.queue s' refl h' enough') node rest s
            (subst (λ x. Permᴰ x (node ∷ rest)) (sym e) perm) h
            (subst (λ x. total (node_weight w) x ≤ suc fuel) (sym e) enough))
