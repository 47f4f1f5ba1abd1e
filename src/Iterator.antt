-- ===== src/Iterator.antt =====
-- The object iterator of object.go, a walk over everything that some objects refer to. The options,
-- which no operation changes, are a parameter. A call of a method on a nil hash, which panics, is the
-- error `nil_pointer`. The loops have fuel, and give `none` when it runs out.
pub mod Included
pub mod Routes
pub mod Drained
use go_repo_dojo.Base.{
  ℕ, zero, suc, ◌+◌, Bool, true, false, not, ◌&&◌, ◌||◌, Option, none, some, List, [], ◌∷◌, ◌++◌,
  ◌==◌, ltb, if◌then◌else◌, map, map_set, Names, contains, Result, ok, err, ◌>>=◌, after,
  after_loop, nil_pointer,
}
use go_repo_dojo.Hash.{Hash, hex}
use go_repo_dojo.Object.{
  ObjectKind, object_kind_blob, object_kind_tree, object_kind_commit, object_kind_tag,
}
use go_repo_dojo.Tree.{TreeContentEntry, obj_type}
use go_repo_dojo.Commit.{CommitContent, TagContent}
use go_repo_dojo.Repo.{Repo, Object, new_object}

pub data ObjectIterKind : Type 0 where
  object_iter_all object_iter_commit : ObjectIterKind

-- A `max_depth` of 0 is no bound.
pub record ObjectIteratorOptions : Type 0 where
  pub kind : ObjectIterKind
  pub max_depth : ℕ
  pub full : Bool

pub record OidQueueEntry : Type 0 where
  pub oid : Hash
  pub depth : ℕ

pub record ObjectIterator : Type 0 where
  pub queue : List OidQueueEntry
  pub excludes : Names
  pub depth : ℕ

unfoldable pub new_object_iterator : ObjectIterator
new_object_iterator = record { queue = []; excludes = []; depth = 0 }

unfoldable pub is_all : ObjectIterKind → Bool
is_all object_iter_all = true
is_all object_iter_commit = false

unfoldable pub is_commit_kind : ObjectKind → Bool
is_commit_kind object_kind_blob = false
is_commit_kind object_kind_tree = false
is_commit_kind object_kind_commit = true
is_commit_kind object_kind_tag = false

-- The hashes of a tree's entries but for links to other repositories, of type 0o16.
unfoldable pub entry_refs : List TreeContentEntry → List (Option Hash)
entry_refs [] = []
entry_refs (e ∷ es) =
    let rest = entry_refs es in if obj_type e.mode == 14 then rest else some e.oid ∷ rest

parent_refs : List Hash → List (Option Hash)
parent_refs [] = []
parent_refs (h ∷ hs) = some h ∷ parent_refs hs

tree_refs : Option (List TreeContentEntry) → List (Option Hash)
tree_refs none = []
tree_refs (some es) = entry_refs es

commit_refs : ObjectIterKind → Option CommitContent → List (Option Hash)
commit_refs k none = []
commit_refs k (some c) = parent_refs c.parent_oids ++ (if is_all k then c.tree ∷ [] else [])

tag_refs : Option TagContent → List (Option Hash)
tag_refs none = []
tag_refs (some t) = t.target ∷ []

-- The hashes that `includeContentRefs` includes, in order.
refs_by_kind : ObjectIterKind → ObjectKind → Object → List (Option Hash)
unfolding entry_refs tree_refs parent_refs commit_refs tag_refs is_all
refs_by_kind k object_kind_blob o = []
refs_by_kind k object_kind_tree o = if is_all k then tree_refs o.tree else []
refs_by_kind k object_kind_commit o = commit_refs k o.commit
refs_by_kind k object_kind_tag o = tag_refs o.tag

unfoldable pub content_refs : ObjectIterKind → Object → List (Option Hash)
unfolding refs_by_kind
content_refs k o = refs_by_kind k o.kind o

module _ (opts : ObjectIteratorOptions) where
  unfoldable pub include_at_depth : Hash → ℕ → ObjectIterator → ObjectIterator
  include_at_depth oid depth it =
      if ltb 0 opts.max_depth && ltb opts.max_depth depth
      then it
      else if contains it.excludes (hex oid)
      then it
      else record it { queue = it.queue ++ (record { oid = oid; depth = depth } ∷ []) }

  unfoldable pub include : Hash → ObjectIterator → ObjectIterator
  unfolding include_at_depth
  include oid it = include_at_depth oid 0 it

  unfoldable pub include_refs : List (Option Hash) → ℕ → ObjectIterator → Result ObjectIterator
  unfolding include_at_depth
  include_refs [] depth it = ok it
  include_refs (none ∷ refs) depth it =
      let rest = include_refs refs depth it in
      if ltb 0 opts.max_depth && ltb opts.max_depth depth then rest else err nil_pointer
  include_refs (some oid ∷ refs) depth it = include_refs refs depth (include_at_depth oid depth it)

  unfoldable pub include_content_refs : Object → ℕ → ObjectIterator → Result ObjectIterator
  unfolding include_refs content_refs
  include_content_refs o depth it = include_refs (content_refs opts.kind o) depth it

  -- Whether `Next` returns the object.
  unfoldable pub is_wanted : Object → Bool
  unfolding is_all is_commit_kind
  is_wanted o = is_all opts.kind || is_commit_kind o.kind

  -- The rest of `Next` behind the inclusion: the object in full, or read again.
  pub reread : Repo → Hash → Object → Result Object
  reread repo oid o = if opts.full then ok o else new_object repo oid false

  pub return_object :
      Repo → OidQueueEntry → Object → ObjectIterator → Result (Option Object × ObjectIterator)
  unfolding is_wanted reread
  return_object repo entry o it =
      if is_wanted o then (do obj ← reread repo entry.oid o; ok (some obj, it)) else ok (none, it)

  -- One round on an entry that was taken out of the queue: nothing, or an object that is returned.
  unfoldable pub visit_entry :
      Repo → OidQueueEntry → ObjectIterator → Result (Option Object × ObjectIterator)
  unfolding include_content_refs return_object
  visit_entry repo entry it = if contains it.excludes (hex entry.oid) then ok (none, it) else (do
    full_obj ← new_object repo entry.oid true
    it' ←
        include_content_refs full_obj (entry.depth + 1)
          (record it { excludes = map_set (hex entry.oid) true it.excludes })
    return_object repo entry full_obj (record it' { depth = entry.depth }))

  pub go_on :
      (ObjectIterator → Option (Result (Option Object × ObjectIterator)))
      → Option Object × ObjectIterator
      → Option (Result (Option Object × ObjectIterator))
  go_on loop (none, it) = loop it
  go_on loop (some o, it) = some (ok (some o, it))

  pub next_loop :
      Repo
      → ℕ
      → List OidQueueEntry
      → ObjectIterator
      → Option (Result (Option Object × ObjectIterator))
  unfolding go_on visit_entry
  next_loop repo fuel [] it = some (ok (none, it))
  next_loop repo zero (entry ∷ rest) it = none
  next_loop repo (suc fuel) (entry ∷ rest) it =
      after (visit_entry repo entry (record it { queue = rest }))
        (go_on (λ it'. next_loop repo fuel it'.queue it'))

  unfoldable pub next : Repo → ℕ → ObjectIterator → Option (Result (Option Object × ObjectIterator))
  unfolding next_loop
  next repo fuel it = next_loop repo fuel it.queue it

  -- The callers' loop: `Next` until it returns nil.
  pub keep :
      (ObjectIterator → Option (Result (List Object)))
      → Option Object × ObjectIterator
      → Option (Result (List Object))
  keep loop (none, it) = some (ok [])
  keep loop (some o, it) = after_loop (loop it) (λ os. some (ok (o ∷ os)))

  unfoldable pub drain : Repo → ℕ → ObjectIterator → Option (Result (List Object))
  unfolding next keep
  drain repo zero it = none
  drain repo (suc fuel) it = after_loop (next repo (suc fuel) it) (keep (drain repo fuel))

  pub exclude_refs :
      (Hash → ObjectIterator → Option (Result ObjectIterator))
      → List (Option Hash)
      → ObjectIterator
      → Option (Result ObjectIterator)
  exclude_refs rec [] it = some (ok it)
  exclude_refs rec (none ∷ refs) it = some (err nil_pointer)
  exclude_refs rec (some oid ∷ refs) it = after_loop (rec oid it) (exclude_refs rec refs)

  exclude_names : List Hash → ObjectIterator → ObjectIterator
  exclude_names [] it = it
  exclude_names (h ∷ hs) it =
      exclude_names hs (record it { excludes = map_set (hex h) true it.excludes })

  tree_of : Option CommitContent → List (Option Hash)
  tree_of none = []
  tree_of (some c) = c.tree ∷ []

  parents_of : Option CommitContent → List Hash
  parents_of none = []
  parents_of (some c) = c.parent_oids

  -- What `Exclude` does with the content of an object.
  pub exclude_content :
      (Hash → ObjectIterator → Option (Result ObjectIterator))
      → ObjectKind
      → Object
      → ObjectIterator
      → Option (Result ObjectIterator)
  unfolding exclude_refs exclude_names tree_of parents_of tree_refs
  exclude_content rec object_kind_blob o it = some (ok it)
  exclude_content rec object_kind_tag o it = some (ok it)
  exclude_content rec object_kind_tree o it =
      if is_all opts.kind then exclude_refs rec (tree_refs o.tree) it else some (ok it)
  exclude_content rec object_kind_commit o it =
      let it' = exclude_names (parents_of o.commit) it in
      if is_all opts.kind then exclude_refs rec (tree_of o.commit) it' else some (ok it')

  unfoldable pub exclude : Repo → ℕ → Hash → ObjectIterator → Option (Result ObjectIterator)
  unfolding exclude_content
  exclude repo zero oid it = none
  exclude repo (suc fuel) oid it = after (new_object repo oid true) (λ o.
      exclude_content (exclude repo fuel) o.kind o
        (record it { excludes = map_set (hex oid) true it.excludes }))
