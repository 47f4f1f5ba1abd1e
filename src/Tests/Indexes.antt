-- ===== src/Tests/Indexes.antt =====
-- The index at concrete entries.
use go_repo_dojo.Base.{
  List, inl, inr, ℕ, ◌+◌, ◌*◌, ◌^◌, ◌<◌, ◌≡◌, refl, none, some, [], ◌∷◌, arith, Bytes, codes,
  length, All, replicate, ok, err, true, stuck, map_get, map_set, map_delete, bytes_eq,
}
use go_repo_dojo.Hash.{HashKind, sha1_hash_kind, Hash, sha1_hash}
use go_repo_dojo.Text.{last_index, split, join, trim_right}
use go_repo_dojo.Slash.{path_clean, path_dir, path_base}
use go_repo_dojo.Index.{
  IndexEntry, Index, empty_index, add_entry, link_path, remove_path, stage_of, set_entry, put_stage,
  make_room, no_stages, rebuild_dir_maps,
}
use go_repo_dojo.Index.Serial.{read_index, write_index, sorted_entries, SortedEntry}
use go_repo_dojo.Index.Serial.RoundTrip.{HasFields, IsMode, put_all, read_index-write_index}
use go_repo_dojo.Index.Serial.Sorted.{IsListing}
use go_repo_dojo.Index.Staged.{IsStaged}
use go_repo_dojo.Index.Reached.{Reaches, loaded, added, Reaches-IsStaged}

clean_paths :
    (path_dir (codes "src/lib/a.go") ≡ codes "src/lib")
    × (path_dir (codes "a.go") ≡ codes ".")
    × (path_base (codes "src/lib/a.go") ≡ codes "a.go")
    × (path_clean (codes "a//b/./../c/") ≡ codes "a/c")
    × (path_dir (codes "/a") ≡ codes "/")
unfolding path_dir path_base path_clean last_index split join trim_right bytes_eq
clean_paths = (refl, refl, refl, refl, refl)

abbrev some_oid : Hash
some_oid = sha1_hash (replicate 20 9)

abbrev entry_of_stage : ℕ → Bytes → IndexEntry
entry_of_stage stage path = record {
  ctime_secs = 0;
  ctime_nsecs = 0;
  mtime_secs = 0;
  mtime_nsecs = 0;
  dev = 0;
  ino = 0;
  mode = 0x81a4;
  uid = 0;
  gid = 0;
  file_size = 3;
  oid = some_oid;
  flags = stage * 4096 + length path;
  path = path;
}

abbrev conflict_then_resolved : Index
conflict_then_resolved = record {
  version = 2;
  entries =
      (
        codes "d/f",
        record {
          stage0 = some (entry_of_stage 0 (codes "d/f"));
          stage1 = none;
          stage2 = none;
          stage3 = none;
        },
      )
      ∷ [];
  dir_to_paths = (codes "d", (codes "d/f", true) ∷ []) ∷ [];
  dir_to_children = (codes "d", (codes "f", true) ∷ []) ∷ [];
  root_children = (codes "d", true) ∷ [];
}

abbrev in_conflict : Index
in_conflict = record conflict_then_resolved {
  entries =
      (
        codes "d/f",
        record {
          stage0 = none;
          stage1 = none;
          stage2 = some (entry_of_stage 2 (codes "d/f"));
          stage3 = none;
        },
      )
      ∷ [];
}

add_conflicting : add_entry empty_index (entry_of_stage 2 (codes "d/f")) ≡ ok in_conflict
unfolding add_entry link_path set_entry stage_of put_stage make_room no_stages empty_index map_get
    map_set path_dir path_base path_clean last_index split join trim_right bytes_eq
add_conflicting = refl

add_resolved : add_entry in_conflict (entry_of_stage 0 (codes "d/f")) ≡ ok conflict_then_resolved
unfolding add_entry link_path set_entry stage_of put_stage make_room no_stages empty_index map_get
    map_set path_dir path_base path_clean last_index split join trim_right bytes_eq
add_resolved = refl

-- The directory goes with its last file.
remove_directory :
    remove_path conflict_then_resolved (codes "d") ≡ ok (empty_index, codes "d/f" ∷ [])
unfolding remove_path rebuild_dir_maps empty_index map_get map_delete bytes_eq
remove_directory = refl

-- The loop over the parents of an absolute path does not end.
absolute_path : link_path (codes "/a/b") empty_index ≡ err stuck
unfolding link_path empty_index path_dir path_base path_clean last_index split join trim_right
    bytes_eq map_get map_set
absolute_path = refl

reached : Reaches sha1_hash_kind conflict_then_resolved
unfolding read_index
reached =
    added (entry_of_stage 0 (codes "d/f"))
      (added (entry_of_stage 2 (codes "d/f")) (loaded none refl) add_conflicting) add_resolved

found :
    map_get (codes "d/f") conflict_then_resolved.entries
    ≡ some (record {
      stage0 = some (entry_of_stage 0 (codes "d/f"));
      stage1 = none;
      stage2 = none;
      stage3 = none;
    })
unfolding map_get bytes_eq
found = refl

Reaches-IsStaged_example : IsStaged (codes "d/f") (record {
  stage0 = some (entry_of_stage 0 (codes "d/f"));
  stage1 = none;
  stage2 = none;
  stage3 = none;
})
Reaches-IsStaged_example =
    Reaches-IsStaged sha1_hash_kind conflict_then_resolved (codes "d/f") _ reached found

abbrev length_sum : HashKind → Bytes → Bytes
length_sum k s = length s ∷ replicate 19 7

fields_fit : (n : ℕ) → n < 4 → HasFields sha1_hash_kind (entry_of_stage n (codes "d/f"))
fields_fit n small = record {
  ctime_secs_fits = omega arith;
  ctime_nsecs_fits = omega arith;
  mtime_secs_fits = omega arith;
  mtime_nsecs_fits = omega arith;
  dev_fits = omega arith;
  ino_fits = omega arith;
  mode_fits = omega arith;
  uid_fits = omega arith;
  gid_fits = omega arith;
  file_size_fits = omega arith;
  oid_kind = omega arith;
  flags_fit = omega arith;
  path_lacks = ground arith;
}

-- A conflict in all three stages.
abbrev three_stages : Index
three_stages = record conflict_then_resolved {
  entries =
      (
        codes "d/f",
        record {
          stage0 = none;
          stage1 = some (entry_of_stage 1 (codes "d/f"));
          stage2 = some (entry_of_stage 2 (codes "d/f"));
          stage3 = some (entry_of_stage 3 (codes "d/f"));
        },
      )
      ∷ [];
}

fields_of_entries :
    All (λ (e : SortedEntry). HasFields sha1_hash_kind e.entry) (sorted_entries three_stages)
unfolding sorted_entries bytes_eq
fields_of_entries =
    (fields_fit 1 (omega arith), (fields_fit 2 (omega arith), (fields_fit 3 (omega arith), tt)))

modes_of_entries : All (λ (e : SortedEntry). IsMode e.entry.mode) (sorted_entries three_stages)
unfolding sorted_entries bytes_eq
modes_of_entries = (inr (inl refl), (inr (inl refl), (inr (inl refl), tt)))

few_entries : length (sorted_entries three_stages) < 2 ^ 32
unfolding sorted_entries bytes_eq
few_entries = omega arith

read_index-write_index_example :
    (es : List SortedEntry) × IsListing three_stages.entries es
    × (read_index sha1_hash_kind (some (write_index length_sum three_stages))
        ≡ put_all es empty_index)
read_index-write_index_example =
    read_index-write_index length_sum sha1_hash_kind three_stages fields_of_entries modes_of_entries
      few_entries
