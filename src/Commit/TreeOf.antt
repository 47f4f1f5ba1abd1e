-- ===== src/Commit/TreeOf.antt =====
-- object.go: the tree of a commit, read from the front of its text.
use go_repo_dojo.Base.{
  ℕ, ◌+◌, ◌≡◌, refl, sym, false, List, [], ◌∷◌, ◌++◌, map, append_assoc, arith, Bytes, codes,
  length, length-append, ltb, take-length_append, ok,
}
use go_repo_dojo.Text.{has_prefix, join}
use go_repo_dojo.Hash.{HashKind, hex_len, Hash, hex}
use go_repo_dojo.Hash.Laws.{HasKind, hash_from_hex-hex}
use go_repo_dojo.Commit.{read_commit_tree, parent_line, ident, header_lines, commit_content}

read_front :
    (k : HashKind) (tree : Hash) (t : Bytes)
    → HasKind k tree
    → read_commit_tree k (codes "tree " ++ (hex tree ++ t)) ≡ ok tree
unfolding read_commit_tree has_prefix
read_front k tree t h =
    let (len, back) = hash_from_hex-hex k tree h in
    let enough : ltb (length (codes "tree " ++ (hex tree ++ t))) (5 + hex_len k) ≡ false =
      ground (arith, length-append (hex tree) t, len) in
    rw (enough, take-length_append (hex tree) t (hex_len k) (sym len)) back

join_front :
    (p : Bytes) (parents : List Hash) (qs : List Bytes) (q : Bytes)
    → (t : Bytes) × (join (p ∷ ((map parent_line parents ++ (q ∷ qs)))) b'\n' ≡ p ++ t)
unfolding join
join_front p [] qs q = (_, refl)
join_front p (o ∷ parents) qs q = (_, refl)

-- The tree of a commit that was written without a signature is read back, whatever else it holds, if
-- its hash is of the repository's kind.
pub read_commit_tree-commit_content :
    (k : HashKind) (tree : Hash) (parents : List Hash) (author committer message : Bytes) (ts : ℕ)
    → HasKind k tree
    → read_commit_tree k (commit_content tree parents author committer ts message) ≡ ok tree
unfolding commit_content header_lines
read_commit_tree-commit_content k tree parents author committer message ts h =
    let after = (codes "committer " ++ ident committer ts) ∷ (b'\n' ∷ message) ∷ [] in
    let (t, e) =
      join_front (codes "tree " ++ hex tree) parents after (codes "author " ++ ident author ts) in
    rw (append_assoc, e) (read_front k tree t h)
