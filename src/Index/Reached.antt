-- ===== src/Index/Reached.antt =====
-- The invariant of every index that the operations lead to.
use go_repo_dojo.Base.{
  ◌≡◌, subst, Bool-cases, inl, inr, Option, none, some, List, Bytes, bytes_eq, codes, take, drop,
  length, ltb, ◌==◌, map_get, ok,
}
use go_repo_dojo.Binary.{uint32}
use go_repo_dojo.Hash.{HashKind}
use go_repo_dojo.Index.{
  IndexEntry, Stages, Index, empty_index, add_entry, TreeEntry, add_conflict_entries, remove_path,
}
use go_repo_dojo.Index.Serial.{read_index}
use go_repo_dojo.Index.Staged.{
  IsStaged, Placed, IsWellFormed, Yields, All-map_get, add_entry-Yields,
  add_conflict_entries-Yields, remove_path-Yields, read_entries-Yields,
}

-- An index is read from any file or none, and then changed by the operations.
pub data Reaches (k : HashKind) : Index → Type 0 where
  loaded : (file : Option Bytes) {idx : Index} → read_index k file ≡ ok idx → Reaches k idx
  added :
      {idx idx' : Index} (e : IndexEntry)
      → Reaches k idx
      → add_entry idx e ≡ ok idx'
      → Reaches k idx'
  conflicted :
      {idx idx' : Index} (path : Bytes) (base target source : Option TreeEntry)
      → Reaches k idx
      → add_conflict_entries idx path base target source ≡ ok idx'
      → Reaches k idx'
  removed :
      {idx idx' : Index} (path : Bytes) {gone : List Bytes}
      → Reaches k idx
      → remove_path idx path ≡ ok (idx', gone)
      → Reaches k idx'

empty_index-IsWellFormed : IsWellFormed empty_index
unfolding IsWellFormed empty_index
empty_index-IsWellFormed = tt

read_index-Yields : (k : HashKind) (file : Option Bytes) → Yields IsWellFormed (read_index k file)
unfolding read_index
read_index-Yields k none = empty_index-IsWellFormed
read_index-Yields k (some d) = elim (Bool-cases (ltb (length d) 12)) [
  | inl t ↦ rw t tt
  | inr t1 ↦ (elim (Bool-cases (bytes_eq (take 4 d) (codes "DIRC"))) [
    | inr t ↦ rw (t1, t) tt
    | inl t2 ↦ (elim (Bool-cases (uint32 (drop 4 d) == 2)) [
      | inr t ↦ rw (t1, t2, t) tt
      | inl t3 ↦
          rw (t1, t2, t3)
            (read_entries-Yields k (uint32 (drop 8 d)) (drop 12 d) empty_index
              empty_index-IsWellFormed)
    ])
  ])
]

Reaches-IsWellFormed : (k : HashKind) (idx : Index) → Reaches k idx → IsWellFormed idx
Reaches-IsWellFormed k idx (loaded file e) =
    subst (Yields IsWellFormed) e (read_index-Yields k file)
Reaches-IsWellFormed k idx' (added {idx} e h eq) =
    subst (Yields IsWellFormed) eq (add_entry-Yields idx e (Reaches-IsWellFormed k idx h))
Reaches-IsWellFormed k idx' (conflicted {idx} path base target source h eq) =
    subst (Yields IsWellFormed) eq
      (add_conflict_entries-Yields idx path base target source (Reaches-IsWellFormed k idx h))
Reaches-IsWellFormed k idx' (removed {idx} path {gone} h eq) =
    subst (Yields (λ (r : Index × List Bytes). IsWellFormed r.0)) eq
      (remove_path-Yields idx path (Reaches-IsWellFormed k idx h))

-- In every index that is read from a file, or from none, and then changed by adding entries, adding
-- conflicts and removing paths, each entry of a path stands at the stage that its flags tell and under
-- its own path, and a path with an entry of stage 0 has none of the stages 1 to 3.
pub Reaches-IsStaged :
    (k : HashKind) (idx : Index) (p : Bytes) (s : Stages)
    → Reaches k idx
    → map_get p idx.entries ≡ some s
    → IsStaged p s
unfolding IsWellFormed
Reaches-IsStaged k idx p s h e = All-map_get Placed p idx.entries s (Reaches-IsWellFormed k idx h) e
