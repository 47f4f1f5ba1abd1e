-- ===== src/Merge.antt =====
-- merge.go: the walks over commits that find a merge's base, with the priority queue they share. A
-- loop that follows parents has fuel, and gives `none` when that runs out.
pub mod Graph
pub mod Descent
pub mod Marks
pub mod OwnErrors
pub mod MetNames
pub mod Closure
pub mod Rounds
pub mod Ancestor
use go_repo_dojo.Base.{
  Names, after, after_loop, contains, ℕ, zero, suc, Bool, true, false, ◌&&◌, ◌||◌, Option, none,
  some, List, [], ◌∷◌, ◌++◌, ltb, if◌then◌else◌, Bytes, map_get, map_set, length, Result, ok, err,
  ◌>>=◌, stuck, descendent_not_found, no_common_ancestor,
}
use go_repo_dojo.Hash.{Hash, hex, hash_equal}
use go_repo_dojo.Commit.{CommitContent}
use go_repo_dojo.Repo.{Repo, Object, new_object}
use go_repo_dojo.Heap.{set, push, pop, fix}

pub data CommitParentKind : Type 0 where
  commit_parent_one commit_parent_two commit_parent_stale : CommitParentKind

pub record CommitParent : Type 0 where
  pub oid : Hash
  pub kind : CommitParentKind
  pub timestamp : ℕ

abbrev pub Queue : Type 0
Queue = List CommitParent

-- `Less`: the newest commit first.
unfoldable pub newer : CommitParent → CommitParent → Bool
newer a b = ltb b.timestamp a.timestamp

unfoldable pub same_oid : Hash → Hash → Bool
unfolding hash_equal
same_oid a b = hash_equal (some a) (some b)

pub timestamp_or_zero : Option CommitContent → ℕ
timestamp_or_zero none = 0
timestamp_or_zero (some c) = c.timestamp

unfoldable pub parent_oids_of : Option CommitContent → List Hash
parent_oids_of none = []
parent_oids_of (some c) = c.parent_oids

module _ (repo : Repo) where
  -- `repo.NewObject(parentOID, true)` for the timestamp, and the push.
  unfoldable pub push_parent : CommitParentKind → Hash → Queue → Result Queue
  unfolding timestamp_or_zero
  push_parent kind oid q = do
    p_obj ← new_object repo oid true
    ok (
        push newer (record { oid = oid; kind = kind; timestamp = timestamp_or_zero p_obj.commit })
          q)

  unfoldable pub push_all : CommitParentKind → List Hash → Queue → Result Queue
  push_all kind [] q = ok q
  push_all kind (oid ∷ oids) q = do q' ← push_parent kind oid q; push_all kind oids q'

  -- `pushParents` of `getDescendent`.
  unfoldable pub push_parents : CommitParentKind → Hash → Queue → Result Queue
  unfolding push_all parent_oids_of
  push_parents kind oid q = do
    obj ← new_object repo oid true
    push_all kind (parent_oids_of obj.commit) q

-- What the `switch` on a node's kind does: return a hash, `continue`, or go on to the parents.
pub data Verdict : Type 0 where
  found : Hash → Verdict
  passed_over followed : Verdict

unfoldable pub judge : Hash → Hash → CommitParentKind → Hash → Verdict
judge oid1 oid2 commit_parent_one oid =
    if same_oid oid oid2 then found oid1 else if same_oid oid oid1 then passed_over else followed
judge oid1 oid2 commit_parent_two oid =
    if same_oid oid oid1 then found oid2 else if same_oid oid oid2 then passed_over else followed
judge oid1 oid2 commit_parent_stale oid = followed

module _ (repo : Repo) (oid1 oid2 : Hash) where
  -- The body of the loop of `getDescendent`, which goes on by `next`.
  pub descend_from :
      (Queue → Option (Result Hash)) → Option (CommitParent × Queue) → Option (Result Hash)
  unfolding judge
  descend_from next none = none
  descend_from next (some (node, rest)) = elim (judge oid1 oid2 node.kind node.oid) [
    | found h ↦ some (ok h)
    | passed_over ↦ next rest
    | followed ↦ after (push_parents repo node.kind node.oid rest) next
  ]

  unfoldable pub descend : ℕ → Queue → Option (Result Hash)
  unfolding descend_from
  descend fuel [] = some (err descendent_not_found)
  descend zero (n ∷ q) = none
  descend (suc fuel) (n ∷ q) = descend_from (descend fuel) (pop newer (n ∷ q))

  start_descent : Result Queue
  start_descent = do
    q ← push_parents repo commit_parent_one oid1 []
    push_parents repo commit_parent_two oid2 q

  unfoldable pub get_descendent : ℕ → Option (Result Hash)
  unfolding same_oid descend push_parents start_descent
  get_descendent fuel =
      if same_oid oid1 oid2 then some (ok oid1) else after start_descent (descend fuel)

-- The variables of `commonAncestor`'s loop.
pub record Ancestry : Type 0 where
  pub queue : Queue
  pub parents_of1 : Names
  pub parents_of2 : Names
  pub parents_of_both : List Hash
  pub parents_of_both_set : Names
  pub stale_oids : Names

unfoldable pub add_to_both : Hash → Ancestry → Ancestry
add_to_both oid s = if contains s.parents_of_both_set (hex oid) then s else record s {
  parents_of_both = s.parents_of_both ++ (oid ∷ []);
  parents_of_both_set = map_set (hex oid) true s.parents_of_both_set;
}

-- What the `switch` on a node's kind does: return a hash, `continue`, or go on with the state.
pub data Marked : Type 0 where
  base : Hash → Marked
  skipped : Marked
  marked : Ancestry → Marked

unfoldable pub mark : Hash → Hash → CommitParentKind → Hash → Ancestry → Marked
unfolding add_to_both contains same_oid
mark oid1 oid2 commit_parent_one oid s =
    if same_oid oid oid2
    then base oid2
    else if contains s.parents_of2 (hex oid)
    then marked (add_to_both oid s)
    else if contains s.parents_of1 (hex oid)
    then skipped
    else marked (record s { parents_of1 = map_set (hex oid) true s.parents_of1 })
mark oid1 oid2 commit_parent_two oid s =
    if same_oid oid oid1
    then base oid1
    else if contains s.parents_of1 (hex oid)
    then marked (add_to_both oid s)
    else if contains s.parents_of2 (hex oid)
    then skipped
    else marked (record s { parents_of2 = map_set (hex oid) true s.parents_of2 })
mark oid1 oid2 commit_parent_stale oid s =
    marked (record s { stale_oids = map_set (hex oid) true s.stale_oids })

-- The first node of the hash, by its index.
unfoldable pub index_of : Hash → Queue → Option ℕ
index_of oid [] = none
index_of oid (n ∷ q) =
    let rest = index_of oid q in
    if same_oid n.oid oid then some 0 else elim rest [ none ↦ none | some i ↦ some (suc i) ]

unfoldable pub set_stale : ℕ → Queue → Queue
set_stale i [] = []
set_stale zero (n ∷ q) = record n { kind = commit_parent_stale } ∷ q
set_stale (suc i) (n ∷ q) = n ∷ set_stale i q

unfoldable pub is_stale_kind : CommitParentKind → Bool
is_stale_kind commit_parent_one = false
is_stale_kind commit_parent_two = false
is_stale_kind commit_parent_stale = true

unfoldable pub all_stale : Queue → Bool
unfolding is_stale_kind
all_stale [] = true
all_stale (n ∷ q) = is_stale_kind n.kind && all_stale q

module _ (repo : Repo) where
  -- A stale parent that waits in the queue is marked there; any other parent is pushed.
  unfoldable pub offer_parent : CommitParentKind → Bool → Hash → Queue → Result Queue
  unfolding index_of set_stale push_parent
  offer_parent kind is_stale oid q =
      if is_stale
      then (elim (index_of oid q) [
        | none ↦ push_parent repo commit_parent_stale oid q
        | some i ↦ ok (fix newer i (set_stale i q))
      ])
      else push_parent repo kind oid q

  -- The loop over the parents of a node of this kind.
  unfoldable pub offer_parents : CommitParentKind → Bool → Names → List Hash → Queue → Result Queue
  unfolding offer_parent contains
  offer_parents kind is_base stale_oids [] q = ok q
  offer_parents kind is_base stale_oids (oid ∷ oids) q = do
    q' ← offer_parent kind (is_base || contains stale_oids (hex oid)) oid q
    offer_parents kind is_base stale_oids oids q'

  -- What stands behind the `switch`, up to the test that ends the loop.
  unfoldable pub expand : CommitParent → Ancestry → Result Ancestry
  unfolding offer_parents parent_oids_of
  expand node s = do
    obj ← new_object repo node.oid true
    q ←
        offer_parents node.kind (contains s.parents_of_both_set (hex node.oid)) s.stale_oids
          (parent_oids_of obj.commit) s.queue
    ok (record s { queue = q })

  -- An object that is a commit starts in the queue.
  unfoldable pub push_start : CommitParentKind → Hash → Queue → Result Queue
  push_start kind oid q = do
    obj ← new_object repo oid true
    ok (elim obj.commit [
      | none ↦ q
      | some c ↦ push newer (record { oid = oid; kind = kind; timestamp = c.timestamp }) q
    ])

-- How the loop ends: with a hash that is returned, or with the bases.
pub data Searched : Type 0 where
  returned : Hash → Searched
  bases : List Hash → Searched

module _ (repo : Repo) (oid1 oid2 : Hash) where
  pub walk_on : (Ancestry → Option (Result Searched)) → Ancestry → Option (Result Searched)
  walk_on next s = if all_stale s.queue then some (ok (bases s.parents_of_both)) else next s

  pub walk_from :
      (Ancestry → Option (Result Searched))
      → Ancestry
      → Option (CommitParent × Queue)
      → Option (Result Searched)
  unfolding walk_on
  walk_from next s none = none
  walk_from next s (some (node, rest)) =
      elim (mark oid1 oid2 node.kind node.oid (record s { queue = rest })) [
        | base h ↦ some (ok (returned h))
        | skipped ↦ next (record s { queue = rest })
        | marked s' ↦ after (expand repo node s') (walk_on next)
      ]

  -- The loop on what waits in the queue.
  pub walk_queue : ℕ → Queue → Ancestry → Option (Result Searched)
  unfolding walk_from
  walk_queue fuel [] s = some (ok (bases s.parents_of_both))
  walk_queue zero (n ∷ q) s = none
  walk_queue (suc fuel) (n ∷ q) s =
      walk_from (λ s'. walk_queue fuel s'.queue s') s (pop newer (n ∷ q))

-- `result, err = getDescendent(repo, result, nextOID)` over the other bases.
unfoldable pub descend_all : Repo → ℕ → Hash → List Hash → Option (Result Hash)
descend_all repo fuel result [] = some (ok result)
descend_all repo fuel result (next ∷ oids) =
    after_loop (get_descendent repo result next fuel) (λ r. descend_all repo fuel r oids)

unfoldable pub best_base : Repo → ℕ → List Hash → Option (Result Hash)
unfolding descend_all
best_base repo fuel [] = some (err no_common_ancestor)
best_base repo fuel (oid ∷ oids) = descend_all repo fuel oid oids

unfoldable pub settle : Repo → ℕ → Searched → Option (Result Hash)
unfolding best_base
settle repo fuel (returned h) = some (ok h)
settle repo fuel (bases oids) = best_base repo fuel oids

unfoldable pub start_walk : Queue → Ancestry
start_walk q = record {
  queue = q;
  parents_of1 = [];
  parents_of2 = [];
  parents_of_both = [];
  parents_of_both_set = [];
  stale_oids = [];
}

start_search : Repo → Hash → Hash → Result Queue
unfolding push_start
start_search repo oid1 oid2 = do
  q ← push_start repo commit_parent_one oid1 []
  push_start repo commit_parent_two oid2 q

unfoldable pub common_ancestor : Repo → Hash → Hash → ℕ → Option (Result Hash)
unfolding same_oid start_search walk_queue settle start_walk
common_ancestor repo oid1 oid2 fuel =
    if same_oid oid1 oid2
    then some (ok oid1)
    else after (start_search repo oid1 oid2)
        (λ q. after_loop (walk_queue repo oid1 oid2 fuel q (start_walk q)) (settle repo fuel))
