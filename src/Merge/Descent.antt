-- ===== src/Merge/Descent.antt =====
-- `getDescendent`: which of two commits descends from the other.
use go_repo_dojo.Base.{
  Ends, after, after-bind, ℕ, zero, suc, ◌+◌, ◌≤◌, ◌<◌, ◌≡◌, ◌≢◌, refl, sym, ap, ◌∙◌, subst, true,
  false, Bool-cases, ◌⊎◌, inl, inr, Option, none, some, List, [], ◌∷◌, Bytes, All, Result,
  Result-cases, ok, err, Error, descendent_not_found, arith,
}
use go_repo_dojo.Hash.{Hash, hex}
use go_repo_dojo.Repo.{Repo, Object, new_object}
use go_repo_dojo.Heap.Kept.{total, Permᴰ-total, Permᴰ-All, Permᴰ-Memᴰ, pop-Permᴰ}
use go_repo_dojo.Merge.{
  CommitParentKind, commit_parent_one, commit_parent_two, commit_parent_stale, CommitParent, Queue,
  newer, same_oid, parent_oids_of, push_all, push_parents, found, passed_over, followed, judge,
  descend_from, descend, start_descent, get_descendent,
}
use go_repo_dojo.Merge.Graph.{
  same_oid_sym, same_oid-hex, same_oid_refl, Walk, here, step, Named, Descends, Walk-cases, Weighs,
  Descends-lighter, node_weight, node_of, push_all-All, push_all-total, push_all-old, push_all-new,
  push_all-ne-err,
}
use mathlib.Core.List.{Permᴰ, Memᴰ}
use mathlib.Core.List.Memᴰ

-- The end that a node's kind stands for, and the other one; no node of this walk is stale.
abbrev pub IsSide : CommitParentKind → Type 0
IsSide commit_parent_stale = ⊥
IsSide _ = Unit {0}

module _ (oid1 oid2 : Hash) where
  abbrev pub own : CommitParentKind → Hash
  own commit_parent_two = oid2
  own _ = oid1

  abbrev pub other : CommitParentKind → Hash
  other commit_parent_two = oid1
  other _ = oid2

  -- What the `switch` finds out.
  judge_cases :
      (kind : CommitParentKind) (oid : Hash)
      → IsSide kind
      → ((judge oid1 oid2 kind oid ≡ found (own kind)) × (same_oid oid (other kind) ≡ true))
        ⊎ (((judge oid1 oid2 kind oid ≡ passed_over) × (same_oid oid (own kind) ≡ true))
            ⊎ ((judge oid1 oid2 kind oid ≡ followed) × (same_oid oid (other kind) ≡ false)))
  unfolding judge
  judge_cases commit_parent_one oid h = elim (Bool-cases (same_oid oid oid2)) [
    | inl t ↦ inl (rw t, t)
    | inr t ↦ inr (elim (Bool-cases (same_oid oid oid1)) [
      | inl u ↦ inl (rw (t, u), u)
      | inr u ↦ inr (rw (t, u), t)
    ])
  ]
  judge_cases commit_parent_two oid h = elim (Bool-cases (same_oid oid oid1)) [
    | inl t ↦ inl (rw t, t)
    | inr t ↦ inr (elim (Bool-cases (same_oid oid oid2)) [
      | inl u ↦ inl (rw (t, u), u)
      | inr u ↦ inr (rw (t, u), t)
    ])
  ]
  judge_cases commit_parent_stale oid h = absurd h

module _ (repo : Repo) (w : Bytes → ℕ) (oid1 oid2 : Hash) where
  -- A node is a proper ancestor of its end, and has a weight.
  abbrev Placed : CommitParent → Type 0
  Placed n = IsSide n.kind × (Descends repo (own oid1 oid2 n.kind) n.oid × (0 < w (hex n.oid)))

  -- If a walk leads from one end to the other, a waiting node is on it.
  abbrev Due : CommitParentKind → Queue → Type 0
  Due kind q =
      Walk repo (own oid1 oid2 kind) (other oid1 oid2 kind)
      → (n : CommitParent) × (Memᴰ n q × ((n.kind ≡ kind) × Walk repo n.oid (other oid1 oid2 kind)))

  -- One end is returned, and a walk leads from it to the other.
  abbrev Settled : Hash → Type 0
  Settled r =
      (kind : CommitParentKind) × (IsSide kind
        × ((r ≡ own oid1 oid2 kind) × Named repo (own oid1 oid2 kind) (hex (other oid1 oid2 kind))))

  abbrev Unrelated : Error → Type 0
  Unrelated e =
      e ≡ descendent_not_found
      → ((kind : CommitParentKind)
          → IsSide kind
          → Walk repo (own oid1 oid2 kind) (other oid1 oid2 kind)
          → ⊥)

  module _ (weighs : Weighs repo w)
      (quiet : (oid : Hash) → new_object repo oid true ≢ err descendent_not_found) where
    weight_pos : (oid : Hash) (o : Object) → new_object repo oid true ≡ ok o → 0 < w (hex oid)
    weight_pos oid o read = omega (arith, weighs oid o read)

    -- The parents of a readable object are placed.
    push_all-Placed :
        (kind : CommitParentKind) (oid : Hash) (o : Object) (q q' : Queue)
        → IsSide kind
        → new_object repo oid true ≡ ok o
        → Walk repo (own oid1 oid2 kind) oid
        → push_all repo kind (parent_oids_of o.commit) q ≡ ok q'
        → All Placed q
        → All Placed q'
    push_all-Placed kind oid o q q' side read v h old =
        push_all-All repo kind Placed (parent_oids_of o.commit) q q' h
          (λ p o' ts m read'. (side, ((oid, v, (o, read, m)), weight_pos p o' read'))) old

    -- A walk that is due stays due where no waiting node goes away.
    Due-old :
        (kind k : CommitParentKind) (oids : List Hash) (q q' : Queue)
        → push_all repo k oids q ≡ ok q'
        → Due kind q
        → Due kind q'
    Due-old kind k oids q q' h due v =
        let (n, (m, (e, u))) = due v in (n, (push_all-old repo k oids q q' h m, (e, u)))

    -- A walk from a followed object goes on over one of its parents.
    Due-parent :
        (kind : CommitParentKind) (oid : Hash) (o : Object) (q q' : Queue)
        → new_object repo oid true ≡ ok o
        → push_all repo kind (parent_oids_of o.commit) q ≡ ok q'
        → same_oid oid (other oid1 oid2 kind) ≡ false
        → Walk repo oid (other oid1 oid2 kind)
        → (n : CommitParent) × (Memᴰ n q'
            × ((n.kind ≡ kind) × Walk repo n.oid (other oid1 oid2 kind)))
    Due-parent kind oid o q q' read h apart v = elim (Walk-cases v) [
      | inl e ↦ absurd (cc (sym (same_oid_refl oid) ∙ ap (same_oid oid) e ∙ apart))
      | inr (p, (o', read', m), u) ↦
          let same : o' ≡ o = cc (sym read' ∙ read) in
          let (ts, m') =
            push_all-new repo kind (parent_oids_of o.commit) q q' h
              (subst (λ (x : Object). Memᴰ p (parent_oids_of x.commit)) same m) in
          (node_of kind p ts, (m', (refl, u)))
    ]

    -- A node that is passed over is on no walk that is due.
    Due-passed :
        (kind : CommitParentKind) (node : CommitParent) (q rest : Queue)
        → Permᴰ q (node ∷ rest)
        → Placed node
        → same_oid node.oid (own oid1 oid2 node.kind) ≡ true
        → Due kind q
        → Due kind rest
    Due-passed kind node q rest perm (side, (below, pos)) back due v =
        let (n, (m, (e, u))) = due v in
        elim (Memᴰ.cases_cons (Permᴰ-Memᴰ perm m)) [
          | inl same ↦
              let lighter = Descends-lighter repo w weighs below in
              let again = ap w (same_oid-hex node.oid (own oid1 oid2 node.kind) back) in
              absurd (omega arith)
          | inr later ↦ (n, (later, (e, u)))
        ]

    -- A node that is followed leaves its walk to a parent.
    Due-followed :
        (kind : CommitParentKind) (node : CommitParent) (o : Object) (q rest q' : Queue)
        → Permᴰ q (node ∷ rest)
        → new_object repo node.oid true ≡ ok o
        → push_all repo node.kind (parent_oids_of o.commit) rest ≡ ok q'
        → same_oid node.oid (other oid1 oid2 node.kind) ≡ false
        → Due kind q
        → Due kind q'
    Due-followed kind node o q rest q' perm read h apart due v =
        let (n, (m, (e, u))) = due v in
        elim (Memᴰ.cases_cons (Permᴰ-Memᴰ perm m)) [
          | inl same ↦
              let kinds : node.kind ≡ kind = ap (λ (x : CommitParent). x.kind) (sym same) ∙ e in
              let (n', (m', (e', u'))) = Due-parent node.kind node.oid o rest q' read h apart (
                subst (λ k. Walk repo node.oid (other oid1 oid2 k)) (sym kinds)
                  (subst (λ (x : CommitParent). Walk repo x.oid (other oid1 oid2 kind)) same u)) in
              (n', (m', (e' ∙ kinds, subst (λ k. Walk repo n'.oid (other oid1 oid2 k)) kinds u')))
          | inr later ↦
              (n, (push_all-old repo node.kind (parent_oids_of o.commit) rest q' h later, (e, u)))
        ]

    record Waits (fuel : ℕ) (q : Queue) : Type 0 where
      placed : All Placed q
      due : (kind : CommitParentKind) → IsSide kind → Due kind q
      enough : total (node_weight w) q ≤ fuel

    -- Parents are pushed, or the error is one of reading an object.
    push_parents-Ends :
        (P : Hash → Type 0) (kind : CommitParentKind) (oid : Hash) (q : Queue)
        (next : Queue → Option (Result Hash))
        → ((o : Object) (q' : Queue)
            → new_object repo oid true ≡ ok o
            → push_all repo kind (parent_oids_of o.commit) q ≡ ok q'
            → Ends P Unrelated (next q'))
        → Ends P Unrelated (after (push_parents repo kind oid q) next)
    unfolding push_parents
    push_parents-Ends P kind oid q next go = elim (Result-cases (new_object repo oid true)) [
      | inr (e, read) ↦ rw (read, after) (λ same. absurd (quiet oid (read ∙ ap err same)))
      | inl (o, read) ↦
          let parents = parent_oids_of o.commit in
          rw (read, after)
            (elim (Result-cases (push_all repo kind parents q)) [
              | inr (e, pushed) ↦
                  rw (pushed, after)
                    (λ same. absurd (
                      push_all-ne-err repo kind descendent_not_found parents q quiet
                        (pushed ∙ ap err same)))
              | inl (q', pushed) ↦ rw (pushed, after) (go o q' read pushed)
            ])
    ]

    -- One round.
    descend_from-Ends :
        (fuel : ℕ) (node : CommitParent) (q rest : Queue)
        → Waits (suc fuel) q
        → Permᴰ q (node ∷ rest)
        → ((q' : Queue) → Waits fuel q' → Ends Settled Unrelated (descend repo oid1 oid2 fuel q'))
        → Ends Settled Unrelated
            (descend_from repo oid1 oid2 (descend repo oid1 oid2 fuel) (some (node, rest)))
    unfolding descend_from
    descend_from-Ends fuel node q rest h perm next =
        let (now, later) = Permᴰ-All Placed perm h.placed in
        let (side, ((b, v, p), pos)) = now in
        let sum = Permᴰ-total (node_weight w) perm in
        let bound = h.enough in
        elim (judge_cases oid1 oid2 node.kind node.oid side) [
          | inl (e, at) ↦
              rw (e, descend_from)
                (
                  node.kind,
                  (
                    side,
                    (
                      refl,
                      (node.oid, step v p, same_oid-hex node.oid (other oid1 oid2 node.kind) at),
                    ),
                  ),
                )
          | inr (inl (e, back)) ↦
              rw (e, descend_from)
                (next rest (record {
                  placed = later;
                  due = λ kind s. Due-passed kind node q rest perm now back (h.due kind s);
                  enough = omega arith;
                }))
          | inr (inr (e, apart)) ↦
              rw (e, descend_from)
                (push_parents-Ends Settled node.kind node.oid rest (descend repo oid1 oid2 fuel)
                  (λ o q' read pushed.
                    let light = weighs node.oid o read in
                    let pushes =
                      push_all-total repo node.kind w (parent_oids_of o.commit) rest q' pushed in
                    next q' (record {
                      placed =
                          push_all-Placed node.kind node.oid o rest q' side read (step v p) pushed
                            later;
                      due = λ kind s.
                          Due-followed kind node o q rest q' perm read pushed apart (h.due kind s);
                      enough = omega arith;
                    })))
        ]

    descend-Ends :
        (fuel : ℕ) (q : Queue)
        → Waits fuel q
        → Ends Settled Unrelated (descend repo oid1 oid2 fuel q)
    unfolding descend
    descend-Ends fuel [] h =
        λ same kind side v. let (n, (m, rest)) = h.due kind side v in Memᴰ.not-nil m
    descend-Ends zero (n ∷ q) h =
        let (side, (below, pos)) = h.placed.0 in let bound = h.enough in absurd (omega arith)
    descend-Ends (suc fuel) (n ∷ q) h =
        let (node, rest, popped, perm) = pop-Permᴰ newer n q in
        rw popped
          (descend_from-Ends fuel node (n ∷ q) rest h perm (λ q' h'. descend-Ends fuel q' h'))

    -- The parents of both ends wait.
    start_descent-Ends :
        (fuel : ℕ)
        → w (hex oid1) + w (hex oid2) ≤ fuel
        → same_oid oid1 oid2 ≡ false
        → Ends Settled Unrelated
            (after (start_descent repo oid1 oid2) (descend repo oid1 oid2 fuel))
    unfolding start_descent
    start_descent-Ends fuel enough apart =
        after-bind Settled Unrelated (push_parents repo commit_parent_one oid1 []) _ _ (
          push_parents-Ends Settled commit_parent_one oid1 [] _ (λ o1 q1 read1 pushed1.
            push_parents-Ends Settled commit_parent_two oid2 q1 _ (λ o2 q2 read2 pushed2.
              let total1 =
                push_all-total repo commit_parent_one w (parent_oids_of o1.commit) [] q1 pushed1 in
              let total2 =
                push_all-total repo commit_parent_two w (parent_oids_of o2.commit) q1 q2 pushed2 in
              let light1 = weighs oid1 o1 read1 in
              let light2 = weighs oid2 o2 read2 in
              descend-Ends fuel q2 (record {
                placed =
                    push_all-Placed commit_parent_two oid2 o2 q1 q2 tt read2 here pushed2
                      (push_all-Placed commit_parent_one oid1 o1 [] q1 tt read1 here pushed1 tt);
                due = both o1 o2 q1 q2 read1 read2 pushed1 pushed2;
                enough = omega arith;
              }))))
      where
        both :
            (o1 o2 : Object) (q1 q2 : Queue)
            → new_object repo oid1 true ≡ ok o1
            → new_object repo oid2 true ≡ ok o2
            → push_all repo commit_parent_one (parent_oids_of o1.commit) [] ≡ ok q1
            → push_all repo commit_parent_two (parent_oids_of o2.commit) q1 ≡ ok q2
            → (kind : CommitParentKind) → IsSide kind
            → Due kind q2
        both o1 o2 q1 q2 read1 read2 pushed1 pushed2 commit_parent_one side =
            Due-old commit_parent_one commit_parent_two (parent_oids_of o2.commit) q1 q2 pushed2
              (Due-parent commit_parent_one oid1 o1 [] q1 read1 pushed1 apart)
        both o1 o2 q1 q2 read1 read2 pushed1 pushed2 commit_parent_two side =
            Due-parent commit_parent_two oid2 o2 q1 q2 read2 pushed2
              (same_oid_sym oid2 oid1 ∙ apart)
        both o1 o2 q1 q2 read1 read2 pushed1 pushed2 commit_parent_stale side = absurd side

    get_descendent-Ends :
        (fuel : ℕ)
        → w (hex oid1) + w (hex oid2) ≤ fuel
        → Ends Settled Unrelated (get_descendent repo oid1 oid2 fuel)
    unfolding get_descendent
    get_descendent-Ends fuel enough = elim (Bool-cases (same_oid oid1 oid2)) [
      | inr apart ↦ rw (apart, get_descendent) (start_descent-Ends fuel enough apart)
      | inl same ↦
          rw (same, get_descendent)
            (commit_parent_one, (tt, (refl, (oid1, here, same_oid-hex oid1 oid2 same))))
    ]

-- One of the two commits is the other's descendent.
abbrev pub IsDescendent : Repo → Hash → Hash → Hash → Type 0
IsDescendent repo oid1 oid2 r =
    ((r ≡ oid1) × Named repo oid1 (hex oid2)) ⊎ ((r ≡ oid2) × Named repo oid2 (hex oid1))

-- The search found nothing, and no walk leads from either commit to the other; any other error is the
-- store's.
abbrev pub NoDescendent : Repo → Hash → Hash → Error → Type 0
NoDescendent repo oid1 oid2 e =
    e ≡ descendent_not_found → (Walk repo oid1 oid2 → ⊥) × (Walk repo oid2 oid1 → ⊥)

pub Ends-map {ℓ} :
    {A : Type ℓ} (P P' : A → Type 0) (Q Q' : Error → Type 0) (o : Option (Result A))
    → ((a : A) → P a → P' a)
    → ((e : Error) → Q e → Q' e)
    → Ends P Q o
    → Ends P' Q' o
Ends-map P P' Q Q' none f g h = h
Ends-map P P' Q Q' (some (ok a)) f g h = f a h
Ends-map P P' Q Q' (some (err e)) f g h = g e h

-- Where a readable object outweighs its parents together and the store has no error of its own that
-- says "descendent not found", fuel of the two commits' weights is enough for `getDescendent` to end.
-- The commit that it returns is one of the two, and a walk over parents leads from it to the name of
-- the other. If it says that there is no descendent, no walk leads from either commit to the other.
pub get_descendent_correct :
    (repo : Repo) (w : Bytes → ℕ) (oid1 oid2 : Hash) (fuel : ℕ)
    → Weighs repo w
    → ((oid : Hash) → new_object repo oid true ≢ err descendent_not_found)
    → w (hex oid1) + w (hex oid2) ≤ fuel
    → Ends
        (IsDescendent repo oid1 oid2)
        (NoDescendent repo oid1 oid2)
        (get_descendent repo oid1 oid2 fuel)
get_descendent_correct repo w oid1 oid2 fuel weighs quiet enough =
    Ends-map (Settled repo w oid1 oid2) (IsDescendent repo oid1 oid2) (Unrelated repo w oid1 oid2)
      (NoDescendent repo oid1 oid2) (get_descendent repo oid1 oid2 fuel) which
      (λ e none' same.
        let both = none' same in (both commit_parent_one tt, both commit_parent_two tt))
      (get_descendent-Ends repo w oid1 oid2 weighs quiet fuel enough)
  where
    which :
        (r : Hash)
        → (kind : CommitParentKind) × (IsSide kind
            × ((r ≡ own oid1 oid2 kind)
                × Named repo (own oid1 oid2 kind) (hex (other oid1 oid2 kind))))
        → IsDescendent repo oid1 oid2 r
    which r (commit_parent_one, (side, (e, named))) = inl (e, named)
    which r (commit_parent_two, (side, (e, named))) = inr (e, named)
    which r (commit_parent_stale, (side, rest)) = absurd side
