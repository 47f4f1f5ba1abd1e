-- ===== src/Tree/RoundTrip.antt =====
-- object.go: a tree that was built is parsed back.
use go_repo_dojo.Base.{
  ℕ, zero, suc, ◌+◌, ◌≤◌, ◌<◌, ◌≡◌, refl, sym, ap, ◌∙◌, subst, ◌⊎◌, inl, inr, false, some, List, [],
  ◌∷◌, ◌++◌, map, append_assoc, append-nil, arith, Bytes, codes, length, length-append,
  take-length_append, drop-length_append, drop_past, ltb, All, ok,
}
use go_repo_dojo.Number.{parse_uint}
use go_repo_dojo.Text.Laws.{Lacks, index_byte-append}
use go_repo_dojo.Hash.{HashKind, byte_len, Hash, bytes}
use go_repo_dojo.Hash.Laws.{HasKind, HasKind-length, hash_from_bytes-bytes}
use go_repo_dojo.Tree.{
  TreeBuilderEntry, TreeContentEntry, mode_string, obj_type, unix_perm, entry_data, add_blob_entry,
  add_tree_entry, parse_entry, parse_entries, parse_tree, concat_data, tree_content, sort_by,
}
use go_repo_dojo.Tree.Sorting.{sort_by-map, sort_by-All}
use go_repo_dojo.Text.{index_byte}

behind_bytes :
    (k : HashKind) (oid : Hash) (rest : Bytes)
    → HasKind k oid
    → ltb (length (bytes oid ++ rest)) (byte_len k) ≡ false
behind_bytes k oid rest h = ground (arith, length-append (bytes oid) rest, HasKind-length k oid h)

shape :
    (mode name rest : Bytes) (oid : Hash)
    → entry_data mode name oid ++ rest ≡ mode ++ (b' ' ∷ (name ++ (0 ∷ (bytes oid ++ rest))))
unfolding entry_data
shape mode name rest oid = rw (append_assoc, append_assoc) refl

-- An entry is taken off the front of a tree.
parse_entry-front :
    (k : HashKind) (mode name rest : Bytes) (oid : Hash) {m : ℕ}
    → Lacks b' ' mode
    → Lacks 0 name
    → HasKind k oid
    → parse_uint 8 32 mode ≡ some m
    → parse_entry k (mode ++ (b' ' ∷ (name ++ (0 ∷ (bytes oid ++ rest)))))
      ≡ ok (record { name = name; mode = m; oid = oid }, rest)
unfolding parse_entry
parse_entry-front k mode name rest oid lm ln h e =
    let at_oid = bytes oid ++ rest in
    let at_name = name ++ (0 ∷ at_oid) in
    rw
      (
        index_byte-append mode at_name b' ' lm,
        drop_past mode b' ' at_name (length mode + 1) refl,
        take-length_append mode (b' ' ∷ at_name) (length mode) refl,
        index_byte-append name at_oid 0 ln,
        drop_past name 0 at_oid (length name + 1) refl,
        take-length_append name (0 ∷ at_oid) (length name) refl,
        behind_bytes k oid rest h,
        e,
        take-length_append (bytes oid) rest (byte_len k) (sym (HasKind-length k oid h)),
        drop-length_append (bytes oid) rest (byte_len k) (sym (HasKind-length k oid h)),
        hash_from_bytes-bytes k oid h,
      )
      refl

-- A file or a directory below the tree.
pub data Child : Type 0 where
  blob : ℕ → Bytes → Hash → Child
  subtree : Bytes → Hash → Child

abbrev mode_of : Child → ℕ
mode_of (blob m n o) = m
mode_of (subtree n o) = 16384

abbrev mode_text : Child → Bytes
mode_text (blob m n o) = mode_string m
mode_text (subtree n o) = codes "40000"

abbrev name_of : Child → Bytes
name_of (blob m n o) = n
name_of (subtree n o) = n

abbrev oid_of : Child → Hash
oid_of (blob m n o) = o
oid_of (subtree n o) = o

-- Directories are sorted as if a slash stood behind the name.
abbrev pub child_key : Child → Bytes
child_key (blob m n o) = n
child_key (subtree n o) = n ++ (b'/' ∷ [])

abbrev pub content_entry : Child → TreeContentEntry
content_entry c = record { name = name_of c; mode = mode_of c; oid = oid_of c }

-- The builder after the children are added.
unfoldable pub build : List TreeBuilderEntry → List Child → List TreeBuilderEntry
build entries [] = entries
build entries (blob m n o ∷ cs) = build (add_blob_entry entries m n o) cs
build entries (subtree n o ∷ cs) = build (add_tree_entry entries n o) cs

-- The modes of the index: a file, an executable file, a symbolic link, a submodule.
unfoldable pub IsMode : ℕ → Type 0
IsMode m = (m ≡ 33188) ⊎ (m ≡ 33261) ⊎ (m ≡ 40960) ⊎ (m ≡ 57344)

unfoldable pub IsChild : HashKind → Child → Type 0
IsChild k (blob m n o) = IsMode m × Lacks 0 n × HasKind k o
IsChild k (subtree n o) = Lacks 0 n × HasKind k o

built_entry : Child → TreeBuilderEntry
built_entry c = record {
  sort_key = child_key c;
  data_bytes = entry_data (mode_text c) (name_of c) (oid_of c);
}

build-map :
    (entries : List TreeBuilderEntry) (cs : List Child)
    → build entries cs ≡ entries ++ map built_entry cs
unfolding build add_blob_entry add_tree_entry built_entry
build-map entries [] = sym (append-nil entries)
build-map entries (blob m n o ∷ cs) =
    build-map (add_blob_entry entries m n o) cs ∙ append_assoc entries _ (map built_entry cs)
build-map entries (subtree n o ∷ cs) =
    build-map (add_tree_entry entries n o) cs ∙ append_assoc entries _ (map built_entry cs)

abbrev IsText : Bytes → ℕ → Type 0
IsText t m = Lacks b' ' t × (parse_uint 8 32 t ≡ some m)

mode_string-IsText : (m : ℕ) → IsMode m → IsText (mode_string m) m
unfolding IsMode mode_string obj_type unix_perm parse_uint
mode_string-IsText m (inl e) =
    subst (λ (x : ℕ). IsText (mode_string x) x) (sym e) (omega arith, refl)
mode_string-IsText m (inr (inl e)) =
    subst (λ (x : ℕ). IsText (mode_string x) x) (sym e) (omega arith, refl)
mode_string-IsText m (inr (inr (inl e))) =
    subst (λ (x : ℕ). IsText (mode_string x) x) (sym e) (omega arith, refl)
mode_string-IsText m (inr (inr (inr e))) =
    subst (λ (x : ℕ). IsText (mode_string x) x) (sym e) (omega arith, refl)

parse_entry-Child :
    (k : HashKind) (c : Child) (rest : Bytes)
    → IsChild k c
    → parse_entry k (entry_data (mode_text c) (name_of c) (oid_of c) ++ rest)
      ≡ ok (content_entry c, rest)
unfolding IsChild
parse_entry-Child k (blob m n o) rest (hm, hn, ho) =
    let (lacks, value) = mode_string-IsText m hm in
    ap (parse_entry k) (shape (mode_string m) n rest o)
    ∙ parse_entry-front k (mode_string m) n rest o lacks hn ho value
parse_entry-Child k (subtree n o) rest (hn, ho) =
    ap (parse_entry k) (shape (codes "40000") n rest o)
    ∙ parse_entry-front k (codes "40000") n rest o (omega arith) hn ho (unfold parse_uint in refl)

parse_entries_step :
    (fuel : ℕ) (k : HashKind) (s rest : Bytes) {e : TreeContentEntry} {es : List TreeContentEntry}
    → parse_entry k s ≡ ok (e, rest)
    → parse_entries fuel k rest ≡ ok es
    → parse_entries (suc fuel) k s ≡ ok (e ∷ es)
unfolding parse_entries
parse_entries_step fuel k [] rest h r = absurd (unfold parse_entry index_byte in cc h)
parse_entries_step fuel k (c ∷ s) rest h r = rw (h, r) refl

length-entry_data :
    (mode name rest : Bytes) (oid : Hash) → length rest < length (entry_data mode name oid ++ rest)
unfolding entry_data
length-entry_data mode name rest oid =
    rw (length-append, length-append, length-append) (omega arith)

parse_entries-children :
    (fuel : ℕ) (k : HashKind) (cs : List Child)
    → All (IsChild k) cs
    → length (concat_data (map built_entry cs)) ≤ fuel
    → parse_entries fuel k (concat_data (map built_entry cs)) ≡ ok (map content_entry cs)
unfolding concat_data built_entry
parse_entries-children fuel k [] h enough = unfold parse_entries in refl
parse_entries-children zero k (c ∷ cs) h enough = absurd (
    omega (
      arith,
      enough,
      length-entry_data (mode_text c) (name_of c) (concat_data (map built_entry cs)) (oid_of c),
    ))
parse_entries-children (suc fuel) k (c ∷ cs) (hc, h) enough =
    let rest = concat_data (map built_entry cs) in
    let shorter = length-entry_data (mode_text c) (name_of c) rest (oid_of c) in
    parse_entries_step fuel k _ rest (parse_entry-Child k c rest hc)
      (parse_entries-children fuel k cs h (omega (arith, shorter, enough)))

-- The tree that is built from a directory's children and written is parsed back as these children,
-- sorted by their keys, with the modes, names and hashes that were added. A name has no zero byte,
-- a mode is one of those that the index holds, and
-- the hashes are of the repository's kind.
pub parse_tree-tree_content :
    (k : HashKind) (cs : List Child)
    → All (IsChild k) cs
    → parse_tree k (tree_content (build [] cs)) ≡ ok (map content_entry (sort_by child_key cs))
unfolding parse_tree tree_content
parse_tree-tree_content k cs h =
    rw (build-map [] cs, sorted)
      (parse_entries-children _ k (sort_by child_key cs) (sort_by-All child_key (IsChild k) cs h)
        (omega arith))
  where
    sorted :
        sort_by (λ (e : TreeBuilderEntry). e.sort_key) (map built_entry cs)
        ≡ map built_entry (sort_by child_key cs)
    sorted =
        sort_by-map built_entry child_key (λ (e : TreeBuilderEntry). e.sort_key) cs
          (λ c. unfold built_entry in refl)
