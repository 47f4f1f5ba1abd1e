-- ===== src/Tests/Merges.antt =====
-- The searches for a merge's base on a small history: two commits on one root.
use go_repo_dojo.Base.{
  Ends, contains, ℕ, ◌≡◌, ◌≢◌, refl, sym, ap, true, false, Bool-cases, ◌⊎◌, inl, inr, some, [], ◌∷◌,
  ◌++◌, ◌||◌, if◌then◌else◌, Bytes, codes, bytes_eq, bytes_eq_refl, map_get, map_set, replicate,
  Result, ok, err, Error, object_not_found, descendent_not_found, no_common_ancestor, arith,
}
use go_repo_dojo.Hash.{sha1_hash_kind, Hash, sha1_hash, hex, hash_from_hex}
use go_repo_dojo.Object.{object_kind_commit}
use go_repo_dojo.Commit.{parse_commit, split_blank, commit_line, empty_commit}
use go_repo_dojo.Repo.{Repo, Opened, Object, new_object}
use go_repo_dojo.Text.{split, has_prefix}
use go_repo_dojo.Heap.{push, less, pop, fix, first_child}
use go_repo_dojo.Merge.{
  push_parent, offer_parents, add_to_both, descend_all, set_stale, newer, mark, expand, all_stale,
  parent_oids_of, get_descendent, common_ancestor,
}
use go_repo_dojo.Merge.Graph.{Walk, Weighs}
use go_repo_dojo.Merge.Descent.{IsDescendent, NoDescendent, get_descendent_correct}
use go_repo_dojo.Merge.Rounds.{IsCommon}
use go_repo_dojo.Merge.Ancestor.{IsCommit, common_ancestor_correct}

abbrev pub root : Hash
root = sha1_hash (replicate 20 1)

abbrev pub left : Hash
left = sha1_hash (replicate 20 2)

abbrev pub right : Hash
right = sha1_hash (replicate 20 3)

abbrev pub on_root : Bytes
on_root = codes "parent " ++ (hex root ++ codes "\n\nx")

unfoldable pub commit_of : Bytes → Opened
commit_of text = record {
  header = record { kind = object_kind_commit; size = 0 };
  content = ok text;
}

unfoldable pub stored : Bytes → Result Opened
unfolding commit_of
stored name =
    if bytes_eq name (hex root)
    then ok (commit_of (codes "\n\nx"))
    else if bytes_eq name (hex left)
    then ok (commit_of on_root)
    else if bytes_eq name (hex right)
    then ok (commit_of on_root)
    else err object_not_found

unfoldable pub history : Repo
unfolding stored
history = record { hash = sha1_hash_kind; store = stored }

unfoldable pub weight : Bytes → ℕ
weight name = if bytes_eq name (hex root) then 1 else 2

right_forks : get_descendent history left right 9 ≡ some (err descendent_not_found)
unfolding get_descendent history new_object hex parse_commit split split_blank commit_line
    has_prefix hash_from_hex empty_commit push_parent push less newer pop
right_forks = refl

common_root : common_ancestor history left right 9 ≡ some (ok root)
unfolding common_ancestor history new_object hex parse_commit split split_blank commit_line
    has_prefix hash_from_hex empty_commit push_parent push less newer pop mark map_get map_set
    expand all_stale
common_root = refl

pub parents_of_root : parent_oids_of (some (parse_commit sha1_hash_kind (codes "\n\nx"))) ≡ []
unfolding parent_oids_of parse_commit split split_blank commit_line has_prefix empty_commit
parents_of_root = refl

pub parents_on_root : parent_oids_of (some (parse_commit sha1_hash_kind on_root)) ≡ root ∷ []
unfolding parent_oids_of parse_commit split split_blank commit_line has_prefix empty_commit
    hash_from_hex hex
parents_on_root = refl

-- An object of the history is a commit of a known text.
pub read_commit :
    (a : Hash) (o : Object) (text : Bytes)
    → stored (hex a) ≡ ok (commit_of text)
    → new_object history a true ≡ ok o
    → o.commit ≡ some (parse_commit sha1_hash_kind text)
unfolding new_object history commit_of
read_commit a o text e h =
    let read = rw e at h in
    ap (λ (r : Result Object). elim r [ err x ↦ o.commit | ok x ↦ x.commit ]) (sym read)

pub history_cases :
    (a : Hash)
    → ((bytes_eq (hex a) (hex root) ≡ true) × (stored (hex a) ≡ ok (commit_of (codes "\n\nx"))))
      ⊎ (((bytes_eq (hex a) (hex root) ≡ false) × (stored (hex a) ≡ ok (commit_of on_root)))
          ⊎ (stored (hex a) ≡ err object_not_found))
unfolding stored
history_cases a = elim (Bool-cases (bytes_eq (hex a) (hex root))) [
  | inl e ↦ inl (e, rw e)
  | inr e ↦ elim (Bool-cases (bytes_eq (hex a) (hex left))) [
    | inl f ↦ inr (inl (e, rw (e, f)))
    | inr f ↦ elim (Bool-cases (bytes_eq (hex a) (hex right))) [
      | inl g ↦ inr (inl (e, rw (e, f, g)))
      | inr g ↦ inr (inr (rw (e, f, g)))
    ]
  ]
]

pub weight-root : weight (hex root) ≡ 1
unfolding weight
weight-root = rw (bytes_eq_refl (hex root))

pub weight-left : weight (hex left) ≡ 2
unfolding weight hex bytes_eq
weight-left = refl

weight-right : weight (hex right) ≡ 2
unfolding weight hex bytes_eq
weight-right = refl

pub history-Weighs : Weighs history weight
unfolding weight new_object history
history-Weighs a o read = elim (history_cases a) [
  | inl (e, at) ↦
      let commit = read_commit a o (codes "\n\nx") at read in
      rw (commit, parents_of_root, e) (omega arith)
  | inr (inl (e, at)) ↦
      let commit = read_commit a o on_root at read in
      rw (commit, parents_on_root, e) (omega (arith, weight-root))
  | inr (inr at) ↦ absurd (cc (rw at at read))
]

pub history-ne-err :
    (e : Error) → object_not_found ≢ e → (oid : Hash) → new_object history oid true ≢ err e
unfolding new_object history commit_of
history-ne-err e other oid read = elim (history_cases oid) [
  | inl (f, at) ↦ absurd (cc (rw at at read))
  | inr (inl (f, at)) ↦ absurd (cc (rw at at read))
  | inr (inr at) ↦ other (cc (rw at at read))
]

pub history-IsCommit : IsCommit history left × IsCommit history right
unfolding new_object history hex bytes_eq
history-IsCommit = ((_, _, refl, refl), (_, _, refl, refl))

get_descendent_correct_example :
    Ends
      (IsDescendent history left root)
      (NoDescendent history left root)
      (get_descendent history left root 4)
unfolding weight
get_descendent_correct_example =
    get_descendent_correct history weight left root 4 history-Weighs
      (history-ne-err descendent_not_found (λ e. cc e)) (omega (arith, weight-left, weight-root))

common_ancestor_correct_example :
    Ends
      (λ r. IsCommon history left right (hex r))
      (λ e. e ≡ no_common_ancestor → (c : Hash) → Walk history left c → Walk history right c → ⊥)
      (common_ancestor history left right 8)
common_ancestor_correct_example =
    common_ancestor_correct history weight left right 8 history-Weighs
      (λ oid. (
        history-ne-err descendent_not_found (λ e. cc e) oid,
        history-ne-err no_common_ancestor (λ e. cc e) oid,
      ))
      history-IsCommit.0 history-IsCommit.1 (omega (arith, weight-left, weight-right))

-- A criss-cross history: two roots, and two commits that have both as parents.
abbrev root2 : Hash
root2 = sha1_hash (replicate 20 4)

abbrev on_both : Bytes
on_both = codes "parent " ++ (hex root ++ (codes "\nparent " ++ (hex root2 ++ codes "\n\nx")))

crossed : Bytes → Result Opened
unfolding commit_of
crossed name =
    if bytes_eq name (hex root) || bytes_eq name (hex root2)
    then ok (commit_of (codes "\n\nx"))
    else ok (commit_of on_both)

crossing : Repo
unfolding crossed
crossing = record { hash = sha1_hash_kind; store = crossed }

-- The two bases are unrelated, and the search for the better one fails.
no_best_base : common_ancestor crossing left right 20 ≡ some (err descendent_not_found)
unfolding common_ancestor crossing new_object hex parse_commit split split_blank commit_line
    has_prefix hash_from_hex empty_commit push_parent push less newer pop mark map_get map_set
    expand all_stale offer_parents add_to_both contains descend_all get_descendent fix set_stale
    first_child
no_best_base = refl
