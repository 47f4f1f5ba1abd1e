-- ===== src/ReceivePack/FastForward.antt =====
-- A server that denies other updates than fast-forwards lets through nothing else.
use go_repo_dojo.Base.{
  ℕ, ◌+◌, ◌≤◌, ◌≡◌, ◌≢◌, ap, ◌∙◌, sym, inl, inr, Bool, Bool-cases, true, false, Option, none, some,
  Bytes, bytes_eq_iff, codes, Result, ok, err, Ends, descendent_not_found,
}
use go_repo_dojo.Hex.{encode_to_string}
use go_repo_dojo.Text.{has_prefix}
use go_repo_dojo.Hash.{Hash, hex, is_null, hash_equal}
use go_repo_dojo.Repo.{Repo, new_object}
use go_repo_dojo.Merge.Graph.{Named, here, Weighs}
use go_repo_dojo.Merge.Descent.{IsDescendent, NoDescendent, get_descendent_correct}
use go_repo_dojo.ReceivePack.{ReceivePack, RefUpdate}
use go_repo_dojo.ReceivePack.Checks.{
  Verdict, refused, allowed, is_funny, check_current, check_object, check_delete, only_forward,
  judge_descendent, check_forward, check_bare, go_on, go_on_maybe, from_object, from_delete,
  from_forward, check_ref_update,
}

-- The checks end, and `P` holds if they let the update through.
abbrev pub Lets : Type 0 → Option (Bytes × Verdict) → Type 0
Lets P none = ⊥
Lets P (some (w, refused msg)) = Unit
Lets P (some (w, allowed worktree)) = P

module _ (P : Type 0) where
  go_on-Lets :
      (v : Bytes × Verdict) (next : Bytes → Bool → Option (Bytes × Verdict))
      → ((w : Bytes) (worktree : Bool) → Lets P (next w worktree))
      → Lets P (go_on v next)
  unfolding go_on
  go_on-Lets (w, refused msg) next h = tt
  go_on-Lets (w, allowed worktree) next h = h w worktree

  go_on_maybe-Lets :
      (o : Option (Bytes × Verdict)) (next : Bytes → Bool → Option (Bytes × Verdict))
      → Lets P o
      → ((w : Bytes) (worktree : Bool) → P → Lets P (next w worktree))
      → Lets P (go_on_maybe o next)
  unfolding go_on_maybe
  go_on_maybe-Lets none next p h = absurd p
  go_on_maybe-Lets (some (w, refused msg)) next p h = tt
  go_on_maybe-Lets (some (w, allowed worktree)) next p h = h w worktree p

  check_bare-Lets :
      (rp : ReceivePack) (w : Bytes) (worktree : Bool)
      → P
      → Lets P (some (check_bare rp w worktree))
  unfolding check_bare
  check_bare-Lets rp w false p = p
  check_bare-Lets rp w true p = elim (Bool-cases rp.is_bare) [ inl e ↦ rw e tt | inr e ↦ rw e p ]

  -- What the last check but one lets through is all that is let through.
  check_ref_update-Lets :
      (fuel : ℕ) (repo : Repo) (rp : ReceivePack) (u : RefUpdate) (w : Bytes)
      → ((w3 : Bytes) (t3 : Bool) → Lets P (check_forward fuel repo rp u w3 t3))
      → Lets P (check_ref_update fuel repo rp u w)
  unfolding check_ref_update from_object from_delete from_forward
  check_ref_update-Lets fuel repo rp u w h = elim (Bool-cases (is_funny u)) [
    | inl e ↦ rw e tt
    | inr e ↦ rw e (
        go_on-Lets (check_current rp u w) (from_object fuel repo rp u) (λ w1 t1.
          go_on-Lets (check_object repo u w1 t1) (from_delete fuel repo rp u) (λ w2 t2.
            go_on-Lets (check_delete rp u w2 t2) (from_forward fuel repo rp u) (λ w3 t3.
              go_on_maybe-Lets (check_forward fuel repo rp u w3 t3)
                (λ w' t'. some (check_bare rp w' t')) (h w3 t3)
                (λ w4 t4 p. check_bare-Lets rp w4 t4 p)))))
  ]

hex-hash_equal : (a b : Hash) → hash_equal (some a) (some b) ≡ true → hex a ≡ hex b
unfolding hash_equal hex
hex-hash_equal a b e = ap encode_to_string ((bytes_eq_iff _ _).0 e)

judge_descendent-Lets :
    (repo : Repo) (u : RefUpdate) (w : Bytes) (worktree : Bool) (r : Option (Result Hash))
    → Ends (IsDescendent repo u.old_oid u.new_oid) (NoDescendent repo u.old_oid u.new_oid) r
    → Lets (Named repo u.new_oid (hex u.old_oid)) (judge_descendent u w worktree r)
unfolding judge_descendent
judge_descendent-Lets repo u w worktree none h = absurd h
judge_descendent-Lets repo u w worktree (some (err e)) h = tt
judge_descendent-Lets repo u w worktree (some (ok d)) h =
    elim (Bool-cases (hash_equal (some d) (some u.new_oid))) [
      | inl e ↦ rw e (elim h [
        | inl (is_old, _) ↦ (u.new_oid, here, sym (hex-hash_equal d u.new_oid e) ∙ ap hex is_old)
        | inr (_, named) ↦ named
      ])
      | inr e ↦ rw e tt
    ]

-- With `denyNonFastForwards` set, the checks of an update of a branch from one commit to another end,
-- and they let it through only if a walk over parents leads from the new commit to the name of the
-- old one; whatever the other settings and the branch that is checked out. This is so where a
-- readable object outweighs its parents together, the fuel is the two commits' weights, and the store
-- has no error of its own that says "descendent not found".
pub check_ref_update-Named :
    (repo : Repo) (weight : Bytes → ℕ) (rp : ReceivePack) (u : RefUpdate) (w : Bytes) (fuel : ℕ)
    → Weighs repo weight
    → ((oid : Hash) → new_object repo oid true ≢ err descendent_not_found)
    → weight (hex u.old_oid) + weight (hex u.new_oid) ≤ fuel
    → rp.deny_non_fast_forwards ≡ true
    → is_null u.old_oid ≡ false
    → is_null u.new_oid ≡ false
    → has_prefix u.ref_name (codes "refs/heads/") ≡ true
    → Lets (Named repo u.new_oid (hex u.old_oid)) (check_ref_update fuel repo rp u w)
unfolding check_forward only_forward
check_ref_update-Named repo weight rp u w fuel weighs quiet enough deny old new branch =
    check_ref_update-Lets _ fuel repo rp u w (λ w3 t3.
      rw (deny, new, old, branch)
        (judge_descendent-Lets repo u w3 t3 _
          (get_descendent_correct repo weight u.old_oid u.new_oid fuel weighs quiet enough)))
