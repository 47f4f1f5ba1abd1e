-- ===== src/Index/Staged.antt =====
-- Every entry stands under its path and at its stage, and stage 0 excludes the others.
use go_repo_dojo.Base.{
  ℕ, zero, suc, ◌/◌, ◌^◌, ◌<◌, ◌≡◌, ◌⊎◌, refl, ap, subst, Bool, true, false, Bool-cases,
  Option-cases, inl, inr, Option, none, some, List, [], ◌∷◌, if◌then◌else◌, Bytes, bytes_eq,
  bytes_eq_iff, length, map_get, map_set, map_delete, All, Result, ok, err, ◌>>=◌, arith,
}
use go_repo_dojo.Base.Bits.{bit_and_low_mask}
use go_repo_dojo.Index.{
  IndexEntry, Stages, PathSet, Index, stage_of, put_stage, no_stages, make_room, set_entry, at_top,
  link_dirs, link_path, add_entry, TreeEntry, add_conflict_entry, add_conflict_entries, has_entry,
  link_all, rebuild_dir_maps, delete_paths, or_empty, remove_path,
}
use go_repo_dojo.Hash.{HashKind}
use go_repo_dojo.Slash.{path_dir, path_base}
use go_repo_dojo.Index.Serial.{read_entry, read_entries}

-- Nothing, or an entry of this stage and path.
unfoldable pub IsAt : ℕ → Bytes → Option IndexEntry → Type 0
IsAt n p none = Unit {0}
IsAt n p (some e) = (stage_of e ≡ n) × (e.path ≡ p)

pub record IsStaged (p : Bytes) (s : Stages) : Type 0 where
  pub at0 : IsAt 0 p s.stage0
  pub at1 : IsAt 1 p s.stage1
  pub at2 : IsAt 2 p s.stage2
  pub at3 : IsAt 3 p s.stage3
  pub exclusive : (s.stage0 ≡ none) ⊎ ((s.stage1 ≡ none) × (s.stage2 ≡ none) × (s.stage3 ≡ none))

abbrev pub Placed : Bytes × Stages → Type 0
Placed (p, s) = IsStaged p s

unfoldable pub IsWellFormed : Index → Type 0
IsWellFormed idx = All Placed idx.entries

module _ {V : Type 0} (P : Bytes × V → Type 0) where
  pub All-map_get :
      (k : Bytes) (m : List (Bytes × V)) (v : V) → All P m → map_get k m ≡ some v → P (k, v)
  unfolding map_get
  All-map_get k [] v h e = absurd (cc e)
  All-map_get k ((j, w) ∷ m) v (hw, h) e = go (λ x. All-map_get k m v h x) (bytes_eq j k) refl e
    where
      go :
          (map_get k m ≡ some v → P (k, v))
          → (b : Bool) → bytes_eq j k ≡ b
          → (if b then some w else map_get k m) ≡ some v
          → P (k, v)
      go later true same e' =
          let key : j ≡ k = (bytes_eq_iff j k).0 same in
          let value : w ≡ v = ap (λ (o : Option V). elim o [ none ↦ w | some x ↦ x ]) e' in
          subst (λ (x : V). P (k, x)) value (subst (λ (q : Bytes). P (q, w)) key hw)
      go later false other e' = later e'

  All-map_set :
      (k : Bytes) (v : V) (m : List (Bytes × V)) → P (k, v) → All P m → All P (map_set k v m)
  unfolding map_set
  All-map_set k v [] pv h = (pv, tt)
  All-map_set k v ((j, w) ∷ m) pv (hw, h) = elim (Bool-cases (bytes_eq j k)) [
    | inl t ↦ rw t (pv, h)
    | inr t ↦ rw t (hw, All-map_set k v m pv h)
  ]

  All-map_delete : (k : Bytes) (m : List (Bytes × V)) → All P m → All P (map_delete k m)
  unfolding map_delete
  All-map_delete k [] h = tt
  All-map_delete k ((j, w) ∷ m) (hw, h) = elim (Bool-cases (bytes_eq j k)) [
    | inl t ↦ rw t (All-map_delete k m h)
    | inr t ↦ rw t (hw, All-map_delete k m h)
  ]

stage_of_bound : (e : IndexEntry) → stage_of e < 4
unfolding stage_of
stage_of_bound e = omega (arith, bit_and_low_mask 2 (e.flags / 2 ^ 12))

no_stages-IsStaged : (p : Bytes) → IsStaged p no_stages
unfolding no_stages IsAt
no_stages-IsStaged p = record { at0 = tt; at1 = tt; at2 = tt; at3 = tt; exclusive = inl refl }

-- The entry is put at its stage, after room was made for it.
put_stage-IsStaged :
    (n : ℕ) (e : IndexEntry) (s : Stages)
    → n < 4
    → stage_of e ≡ n
    → IsStaged e.path s
    → IsStaged e.path (put_stage n e (make_room n s))
unfolding put_stage make_room IsAt
put_stage-IsStaged zero e s small st h = record {
  at0 = (st, refl);
  at1 = tt;
  at2 = tt;
  at3 = tt;
  exclusive = inr (refl, refl, refl);
}
put_stage-IsStaged (suc zero) e s small st h = record {
  at0 = tt;
  at1 = (st, refl);
  at2 = h.at2;
  at3 = h.at3;
  exclusive = inl refl;
}
put_stage-IsStaged (suc (suc zero)) e s small st h = record {
  at0 = tt;
  at1 = h.at1;
  at2 = (st, refl);
  at3 = h.at3;
  exclusive = inl refl;
}
put_stage-IsStaged (suc (suc (suc zero))) e s small st h = record {
  at0 = tt;
  at1 = h.at1;
  at2 = h.at2;
  at3 = (st, refl);
  exclusive = inl refl;
}
put_stage-IsStaged (suc (suc (suc (suc n)))) e s small st h = absurd (omega arith)

make_room-no_stages : (n : ℕ) → make_room n no_stages ≡ no_stages
unfolding make_room no_stages
make_room-no_stages zero = refl
make_room-no_stages (suc n) = refl

set_entry-IsStaged :
    (e : IndexEntry) (m : List (Bytes × Stages))
    → All Placed m
    → IsStaged e.path (set_entry e (map_get e.path m))
unfolding set_entry
set_entry-IsStaged e m h = go (map_get e.path m) refl
  where
    go : (o : Option Stages) → map_get e.path m ≡ o → IsStaged e.path (set_entry e o)
    go none eq =
        subst (λ (s : Stages). IsStaged e.path (put_stage (stage_of e) e s))
          (make_room-no_stages (stage_of e))
          (put_stage-IsStaged (stage_of e) e no_stages (stage_of_bound e) refl
            (no_stages-IsStaged e.path))
    go (some s) eq =
        put_stage-IsStaged (stage_of e) e s (stage_of_bound e) refl
          (All-map_get Placed e.path m s h eq)

-- What holds of the result, if there is one.
abbrev pub Yields {ℓ} : {A : Type ℓ} → (A → Type 0) → Result A → Type 0
Yields P (ok a) = P a
Yields P (err e) = Unit {0}

Yields-bind {ℓ κ} :
    {A : Type ℓ} {B : Type κ} (P : A → Type 0) (Q : B → Type 0) (r : Result A) (next : A → Result B)
    → Yields P r
    → ((a : A) → P a → Yields Q (next a))
    → Yields Q (r >>= next)
Yields-bind P Q (ok a) next h f = f a h
Yields-bind P Q (err e) next h f = tt

-- The directory maps have no part in the entries.
link_dirs-Yields :
    (fuel : ℕ) (path child parent : Bytes) (idx : Index)
    → IsWellFormed idx
    → Yields IsWellFormed (link_dirs fuel path child parent idx)
unfolding link_dirs IsWellFormed
link_dirs-Yields zero path child parent idx h = elim (Bool-cases (at_top parent)) [
  | inl t ↦ rw t h
  | inr t ↦ rw t tt
]
link_dirs-Yields (suc fuel) path child parent idx h = elim (Bool-cases (at_top parent)) [
  | inl t ↦ rw t h
  | inr t ↦ rw (t, link_dirs) (link_dirs-Yields fuel path (path_base parent) (path_dir parent) _ h)
]

link_path-Yields :
    (path : Bytes) (idx : Index) → IsWellFormed idx → Yields IsWellFormed (link_path path idx)
unfolding link_path
link_path-Yields path idx h =
    link_dirs-Yields (length path) path (path_base path) (path_dir path) idx h

pub add_entry-Yields :
    (idx : Index) (e : IndexEntry) → IsWellFormed idx → Yields IsWellFormed (add_entry idx e)
unfolding add_entry IsWellFormed
add_entry-Yields idx e h = link_path-Yields e.path _ (
    All-map_set Placed e.path (set_entry e (map_get e.path idx.entries)) idx.entries
      (set_entry-IsStaged e idx.entries h) h)

add_conflict_entry-Yields :
    (stage : ℕ) (path : Bytes) (te : Option TreeEntry) (idx : Index)
    → IsWellFormed idx
    → Yields IsWellFormed (add_conflict_entry stage path te idx)
unfolding add_conflict_entry
add_conflict_entry-Yields stage path none idx h = h
add_conflict_entry-Yields stage path (some te) idx h = add_entry-Yields idx _ h

pub add_conflict_entries-Yields :
    (idx : Index) (path : Bytes) (base target source : Option TreeEntry)
    → IsWellFormed idx
    → Yields IsWellFormed (add_conflict_entries idx path base target source)
unfolding add_conflict_entries
add_conflict_entries-Yields idx path base target source h =
    Yields-bind IsWellFormed IsWellFormed (add_conflict_entry 1 path base idx) _
      (add_conflict_entry-Yields 1 path base idx h)
      (λ idx1 h1.
        Yields-bind IsWellFormed IsWellFormed (add_conflict_entry 2 path target idx1) _
          (add_conflict_entry-Yields 2 path target idx1 h1)
          (λ idx2 h2. add_conflict_entry-Yields 3 path source idx2 h2))

link_all-Yields :
    (m : List (Bytes × Stages)) (idx : Index)
    → IsWellFormed idx
    → Yields IsWellFormed (link_all m idx)
unfolding link_all
link_all-Yields [] idx h = h
link_all-Yields ((p, s) ∷ rest) idx h =
    Yields-bind IsWellFormed IsWellFormed (if has_entry s then link_path p idx else ok idx) _
      (elim (Bool-cases (has_entry s)) [ inl t ↦ rw t (link_path-Yields p idx h) | inr t ↦ rw t h ])
      (λ idx' h'. link_all-Yields rest idx' h')

delete_paths-All :
    (ps : PathSet) (m : List (Bytes × Stages)) (gone : List Bytes)
    → All Placed m
    → All Placed (delete_paths ps (m, gone)).0
unfolding delete_paths
delete_paths-All [] m gone h = h
delete_paths-All ((p, b) ∷ ps) m gone h = elim (Option-cases (map_get p m)) [
  | inl e ↦ rw (e, delete_paths) (delete_paths-All ps m gone h)
  | inr (s, e) ↦
      rw (e, delete_paths)
        (delete_paths-All ps (map_delete p m) (p ∷ gone) (All-map_delete Placed p m h))
]

pub remove_path-Yields :
    (idx : Index) (path : Bytes)
    → IsWellFormed idx
    → Yields (λ (r : Index × List Bytes). IsWellFormed r.0) (remove_path idx path)
unfolding remove_path rebuild_dir_maps IsWellFormed
remove_path-Yields idx path h =
    let ps = (path, true) ∷ or_empty (map_get path idx.dir_to_paths) in
    let gone = delete_paths ps (idx.entries, []) in
    Yields-bind IsWellFormed (λ (r : Index × List Bytes). IsWellFormed r.0)
      (rebuild_dir_maps (record idx { entries = gone.0 })) _
      (link_all-Yields gone.0 _ (delete_paths-All ps idx.entries [] h)) (λ idx' h'. h')

pub read_entries-Yields :
    (k : HashKind) (n : ℕ) (d : Bytes) (idx : Index)
    → IsWellFormed idx
    → Yields IsWellFormed (read_entries k n d idx)
unfolding read_entries
read_entries-Yields k zero d idx h = h
read_entries-Yields k (suc n) d idx h =
    Yields-bind (λ x. Unit {0}) IsWellFormed (read_entry k d) _ (anything (read_entry k d))
      (λ x u.
        Yields-bind IsWellFormed IsWellFormed (add_entry idx x.0) _ (add_entry-Yields idx x.0 h)
          (λ idx' h'. read_entries-Yields k n x.1 idx' h'))
  where
    anything : {A : Type 0} (r : Result A) → Yields (λ x. Unit {0}) r
    anything (ok a) = tt
    anything (err e) = tt
