-- ===== src/Merge/MetNames.antt =====
-- The sets of names of `commonAncestor`, and the names of objects in the store.
use go_repo_dojo.Base.{
  Names, contains, contains-map_set, ◌≡◌, refl, sym, ap, ◌∙◌, subst, true, false, Bool-cases, ◌⊎◌,
  inl, inr, Bytes, bytes_eq, bytes_eq_iff, bytes_eq_refl, map_set, arith,
}
use go_repo_dojo.Hash.{Hash, hex}
use go_repo_dojo.Repo.{Repo}
use go_repo_dojo.Repo.Renamed.{renamed, new_object-renamed}
use go_repo_dojo.Merge.{
  CommitParentKind, commit_parent_one, commit_parent_two, commit_parent_stale, Queue, Ancestry,
}
use go_repo_dojo.Merge.Graph.{Parent}
use go_repo_dojo.Merge.Descent.{IsSide}
use go_repo_dojo.Merge.Marks.{met, met_across, meet}

-- Hashes of one name have the same parents.
pub Parent-renamed :
    (repo : Repo) (a b p : Hash) → hex a ≡ hex b → Parent repo a p → Parent repo b p
Parent-renamed repo a b p e (o, read, m) =
    (renamed b o, new_object-renamed repo a b true o e read, m)

abbrev pub met_first : CommitParentKind → Bytes → Queue → Ancestry → Ancestry
met_first k name q s = record (meet k name s) { queue = q }

pub met_first-grown :
    (k k0 : CommitParentKind) (name new : Bytes) (q : Queue) (s : Ancestry)
    → contains (met k s) name ≡ true
    → contains (met k (met_first k0 new q s)) name ≡ true
met_first-grown commit_parent_one commit_parent_one name new q s h =
    contains-map_set s.parents_of1 new name ∙ ground arith
met_first-grown commit_parent_one commit_parent_two name new q s h = h
met_first-grown commit_parent_one commit_parent_stale name new q s h =
    contains-map_set s.parents_of1 new name ∙ ground arith
met_first-grown commit_parent_two commit_parent_two name new q s h =
    contains-map_set s.parents_of2 new name ∙ ground arith
met_first-grown commit_parent_two commit_parent_one name new q s h = h
met_first-grown commit_parent_two commit_parent_stale name new q s h = h
met_first-grown commit_parent_stale commit_parent_one name new q s h =
    contains-map_set s.parents_of1 new name ∙ ground arith
met_first-grown commit_parent_stale commit_parent_two name new q s h = h
met_first-grown commit_parent_stale commit_parent_stale name new q s h =
    contains-map_set s.parents_of1 new name ∙ ground arith

contains-set_self : (m : Names) (k : Bytes) → contains (map_set k true m) k ≡ true
contains-set_self m k = contains-map_set m k k ∙ rw (bytes_eq_refl k)

pub met_first_self :
    (k : CommitParentKind) (new : Bytes) (q : Queue) (s : Ancestry)
    → contains (met k (met_first k new q s)) new ≡ true
met_first_self commit_parent_one new q s = contains-set_self s.parents_of1 new
met_first_self commit_parent_two new q s = contains-set_self s.parents_of2 new
met_first_self commit_parent_stale new q s = contains-set_self s.parents_of1 new

contains-set_cases :
    (m : Names) (new name : Bytes)
    → contains (map_set new true m) name ≡ true
    → (contains m name ≡ true) ⊎ (new ≡ name)
contains-set_cases m new name h = elim (Bool-cases (bytes_eq new name)) [
  | inl e ↦ inr ((bytes_eq_iff new name).0 e)
  | inr e ↦ inl (rw e at (sym (contains-map_set m new name) ∙ h))
]

pub met_first-cases :
    (k k0 : CommitParentKind) (name new : Bytes) (q : Queue) (s : Ancestry)
    → IsSide k
    → IsSide k0
    → contains (met k (met_first k0 new q s)) name ≡ true
    → (contains (met k s) name ≡ true) ⊎ ((k0 ≡ k) × (new ≡ name))
met_first-cases commit_parent_one commit_parent_one name new q s side side0 h =
    elim (contains-set_cases s.parents_of1 new name h) [ inl t ↦ inl t | inr e ↦ inr (refl, e) ]
met_first-cases commit_parent_two commit_parent_two name new q s side side0 h =
    elim (contains-set_cases s.parents_of2 new name h) [ inl t ↦ inl t | inr e ↦ inr (refl, e) ]
met_first-cases commit_parent_one commit_parent_two name new q s side side0 h = inl h
met_first-cases commit_parent_two commit_parent_one name new q s side side0 h = inl h
met_first-cases commit_parent_stale k0 name new q s side side0 h = absurd side
met_first-cases commit_parent_one commit_parent_stale name new q s side side0 h = absurd side0
met_first-cases commit_parent_two commit_parent_stale name new q s side side0 h = absurd side0

-- What was met from one end only stays apart from what was met from the other.
pub met_first-apart :
    (k0 : CommitParentKind) (name new : Bytes) (q : Queue) (s : Ancestry)
    → IsSide k0
    → contains (met_across k0 s) new ≡ false
    → (contains s.parents_of1 name ≡ true → contains s.parents_of2 name ≡ false)
    → contains (met_first k0 new q s).parents_of1 name ≡ true
    → contains (met_first k0 new q s).parents_of2 name ≡ false
met_first-apart commit_parent_one name new q s side fresh before h =
    elim (contains-set_cases s.parents_of1 new name h) [
      | inl t ↦ before t
      | inr e ↦ subst (λ x. contains s.parents_of2 x ≡ false) e fresh
    ]
met_first-apart commit_parent_two name new q s side fresh before h =
    elim (Bool-cases (bytes_eq new name)) [
      | inl e ↦
          let same = (bytes_eq_iff new name).0 e in
          absurd (cc (sym fresh ∙ ap (contains s.parents_of1) same ∙ h))
      | inr e ↦ contains-map_set s.parents_of2 new name ∙ rw e (before h)
    ]
met_first-apart commit_parent_stale name new q s side fresh before h = absurd side

pub meet-no_both :
    (k : CommitParentKind) (new : Bytes) (s : Ancestry)
    → (meet k new s).parents_of_both_set ≡ s.parents_of_both_set
meet-no_both commit_parent_one new s = refl
meet-no_both commit_parent_two new s = refl
meet-no_both commit_parent_stale new s = refl

pub meet-both :
    (k : CommitParentKind) (new : Bytes) (s : Ancestry)
    → (meet k new s).parents_of_both ≡ s.parents_of_both
meet-both commit_parent_one new s = refl
meet-both commit_parent_two new s = refl
meet-both commit_parent_stale new s = refl

pub meet-no_stale :
    (k : CommitParentKind) (new : Bytes) (s : Ancestry) → (meet k new s).stale_oids ≡ s.stale_oids
meet-no_stale commit_parent_one new s = refl
meet-no_stale commit_parent_two new s = refl
meet-no_stale commit_parent_stale new s = refl
