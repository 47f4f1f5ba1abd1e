-- ===== src/Index.antt =====
-- index.go: the index in memory and its file. A Go map is an association list, and the order in which
-- Go visits a map is that of the list. What reads the working directory (`AddPath` and
-- `AddOrRemovePath`) is left out.
pub mod Serial
pub mod Staged
pub mod Reached
use go_repo_dojo.Base.{
  ℕ, zero, suc, ◌+◌, ◌-◌, ◌*◌, ◌/◌, ◌%◌, ◌^◌, bit_and, bit_or, Bool, true, false, ◌&&◌, ◌||◌, not,
  Option, none, some, List, [], ◌∷◌, ◌++◌, ◌==◌, ltb, if◌then◌else◌, Bytes, bytes_eq, codes, length,
  take, drop, map_get, map_set, map_delete, Result, ok, err, ◌>>=◌, stuck,
}
use go_repo_dojo.Hash.{Hash}
use go_repo_dojo.Slash.{path_dir, path_base}

pub record IndexEntry : Type 0 where
  pub ctime_secs : ℕ
  pub ctime_nsecs : ℕ
  pub mtime_secs : ℕ
  pub mtime_nsecs : ℕ
  pub dev : ℕ
  pub ino : ℕ
  pub mode : ℕ
  pub uid : ℕ
  pub gid : ℕ
  pub file_size : ℕ
  pub oid : Hash
  pub flags : ℕ
  pub path : Bytes

-- `[4]*indexEntry`: the entries of a path by their stage.
pub record Stages : Type 0 where
  pub stage0 : Option IndexEntry
  pub stage1 : Option IndexEntry
  pub stage2 : Option IndexEntry
  pub stage3 : Option IndexEntry

abbrev pub PathSet : Type 0
PathSet = List (Bytes × Bool)

pub record Index : Type 0 where
  pub version : ℕ
  pub entries : List (Bytes × Stages)
  pub dir_to_paths : List (Bytes × PathSet)
  pub dir_to_children : List (Bytes × PathSet)
  pub root_children : PathSet

unfoldable pub empty_index : Index
empty_index = record {
  version = 2;
  entries = [];
  dir_to_paths = [];
  dir_to_children = [];
  root_children = [];
}

-- `(entry.flags >> 12) & 0x3`
unfoldable pub stage_of : IndexEntry → ℕ
stage_of e = bit_and (e.flags / 2 ^ 12) 0x3

-- `entries[stage] = entry`; a stage is at most 3.
unfoldable pub put_stage : ℕ → IndexEntry → Stages → Stages
put_stage zero e s = record s { stage0 = some e }
put_stage (suc zero) e s = record s { stage1 = some e }
put_stage (suc (suc zero)) e s = record s { stage2 = some e }
put_stage (suc (suc (suc n))) e s = record s { stage3 = some e }

unfoldable pub no_stages : Stages
no_stages = record { stage0 = none; stage1 = none; stage2 = none; stage3 = none }

-- An entry of stage 0 drops the others, and they drop it.
unfoldable pub make_room : ℕ → Stages → Stages
make_room zero s = record s { stage1 = none; stage2 = none; stage3 = none }
make_room (suc n) s = record s { stage0 = none }

unfoldable pub set_entry : IndexEntry → Option Stages → Stages
unfolding make_room put_stage no_stages
set_entry e none = put_stage (stage_of e) e no_stages
set_entry e (some s) = put_stage (stage_of e) e (make_room (stage_of e) s)

or_empty : Option PathSet → PathSet
or_empty none = []
or_empty (some s) = s

-- A member of a directory's set, which is made if it is missing.
add_member : Bytes → Bytes → List (Bytes × PathSet) → List (Bytes × PathSet)
unfolding or_empty
add_member dir member m = map_set dir (map_set member true (or_empty (map_get dir m))) m

at_top : Bytes → Bool
at_top parent = bytes_eq parent (codes ".") || bytes_eq parent []

-- `for parentPath != "." && parentPath != ""` and the root's child behind it.
link_dirs : ℕ → Bytes → Bytes → Bytes → Index → Result Index
unfolding add_member at_top
link_dirs zero path child parent idx =
    if at_top parent
    then ok (record idx { root_children = map_set child true idx.root_children })
    else err stuck
link_dirs (suc fuel) path child parent idx =
    let linked = record idx {
      dir_to_children = add_member parent child idx.dir_to_children;
      dir_to_paths = add_member parent path idx.dir_to_paths;
    } in
    let next = link_dirs fuel path (path_base parent) (path_dir parent) linked in
    if at_top parent
    then ok (record idx { root_children = map_set child true idx.root_children })
    else next

-- The directory maps' part of `addEntry` and `rebuildDirMaps`. Every round takes a slash at least off a
-- relative path; from an absolute one the loop of the source does not come back.
unfoldable pub link_path : Bytes → Index → Result Index
unfolding link_dirs
link_path path idx = link_dirs (length path) path (path_base path) (path_dir path) idx

unfoldable pub add_entry : Index → IndexEntry → Result Index
unfolding set_entry link_path
add_entry idx e =
    link_path e.path (record idx {
      entries = map_set e.path (set_entry e (map_get e.path idx.entries)) idx.entries;
    })

-- The mode and the name of an object in a tree.
pub record TreeEntry : Type 0 where
  pub mode : ℕ
  pub oid : Hash

unfoldable pub conflict_entry : ℕ → Bytes → TreeEntry → IndexEntry
conflict_entry stage path te = record {
  ctime_secs = 0;
  ctime_nsecs = 0;
  mtime_secs = 0;
  mtime_nsecs = 0;
  dev = 0;
  ino = 0;
  mode = te.mode;
  uid = 0;
  gid = 0;
  file_size = 0;
  oid = te.oid;
  flags = bit_or (stage * 2 ^ 12) (bit_and (length path % 2 ^ 16) 0xfff);
  path = path;
}

add_conflict_entry : ℕ → Bytes → Option TreeEntry → Index → Result Index
unfolding conflict_entry
add_conflict_entry stage path none idx = ok idx
add_conflict_entry stage path (some te) idx = add_entry idx (conflict_entry stage path te)

-- The base, the target and the source are stages 1 to 3.
unfoldable pub add_conflict_entries :
    Index → Bytes → Option TreeEntry → Option TreeEntry → Option TreeEntry → Result Index
unfolding add_conflict_entry
add_conflict_entries idx path base target source = do
  idx1 ← add_conflict_entry 1 path base idx
  idx2 ← add_conflict_entry 2 path target idx1
  add_conflict_entry 3 path source idx2

unfoldable pub is_dir : Index → Bytes → Bool
is_dir idx path = elim (map_get path idx.dir_to_paths) [ none ↦ false | some s ↦ true ]

has_entry : Stages → Bool
has_entry s = elim s.stage0 [
  | some e ↦ true
  | none ↦ (elim s.stage1 [
    | some e ↦ true
    | none ↦ (elim s.stage2 [
      | some e ↦ true
      | none ↦ (elim s.stage3 [ some e ↦ true | none ↦ false ])
    ])
  ])
]

link_all : List (Bytes × Stages) → Index → Result Index
unfolding has_entry
link_all [] idx = ok idx
link_all ((p, s) ∷ rest) idx = do
  idx' ← (if has_entry s then link_path p idx else ok idx)
  link_all rest idx'

unfoldable pub rebuild_dir_maps : Index → Result Index
unfolding link_all
rebuild_dir_maps idx =
    link_all idx.entries
      (record idx { dir_to_paths = []; dir_to_children = []; root_children = [] })

-- `delete` of every path of a set, and what was there.
delete_paths : PathSet → List (Bytes × Stages) × List Bytes → List (Bytes × Stages) × List Bytes
delete_paths [] (m, gone) = (m, gone)
delete_paths ((p, b) ∷ ps) (m, gone) =
    delete_paths ps (elim (map_get p m) [ none ↦ (m, gone) | some s ↦ (map_delete p m, p ∷ gone) ])

-- The index without the path and what is under it, and the paths that were removed.
unfoldable pub remove_path : Index → Bytes → Result (Index × List Bytes)
unfolding delete_paths or_empty rebuild_dir_maps
remove_path idx path = do
  let (m, gone) =
      delete_paths ((path, true) ∷ or_empty (map_get path idx.dir_to_paths)) (idx.entries, [])
  idx' ← rebuild_dir_maps (record idx { entries = m })
  ok (idx', gone)
