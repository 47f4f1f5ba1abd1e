-- ===== src/Tests/Trees.antt =====
-- Tree objects on concrete inputs.
use go_repo_dojo.Base.{
  ◌≡◌, refl, inl, List, [], ◌∷◌, map, arith, codes, replicate, ok, err, no_space,
}
use go_repo_dojo.Text.{index_byte}
use go_repo_dojo.Hash.{sha1_hash_kind, sha1_hash, Hash}
use go_repo_dojo.Hash.Laws.{HasKind}
use go_repo_dojo.Tree.{
  mode_string, obj_type, unix_perm, bytes_less, sort_by, tree_content, parse_tree,
}
use go_repo_dojo.Tree.RoundTrip.{
  Child, blob, subtree, child_key, content_entry, build, IsMode, IsChild, parse_tree-tree_content,
}

abbrev some_hash : Hash
some_hash = sha1_hash (replicate 20 7)

-- A directory "lib" beside a file "lib.go", which git sorts before it.
abbrev children : List Child
children = subtree (codes "lib") some_hash ∷ blob 33188 (codes "lib.go") some_hash ∷ []

children_sorted :
    sort_by child_key children
    ≡ blob 33188 (codes "lib.go") some_hash ∷ subtree (codes "lib") some_hash ∷ []
unfolding sort_by bytes_less
children_sorted = refl

executable : mode_string 33261 ≡ codes "100755"
unfolding mode_string obj_type unix_perm
executable = refl

no_entry : parse_tree sha1_hash_kind (codes "junk") ≡ err no_space
unfolding parse_tree index_byte
no_entry = refl

parse_tree-tree_content_example :
    parse_tree sha1_hash_kind (tree_content (build [] children))
    ≡ ok (map content_entry (sort_by child_key children))
unfolding IsChild IsMode HasKind
parse_tree-tree_content_example =
    parse_tree-tree_content sha1_hash_kind children
      ((omega arith, omega arith), ((inl refl, omega arith, omega arith), tt))
