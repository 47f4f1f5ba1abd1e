-- ===== src/Tests/Commits.antt =====
-- Commits and tags on concrete inputs.
use go_repo_dojo.Base.{
  ◌≡◌, refl, none, some, [], ◌∷◌, arith, codes, replicate, ok, err, missing_tree,
}
use go_repo_dojo.Text.{split, has_prefix, trim_right}
use go_repo_dojo.Hash.{sha1_hash_kind, sha1_hash, Hash}
use go_repo_dojo.Commit.{
  split_blank, newline, parse_ident_timestamp, read_commit_tree, ident, commit_content,
  parse_commit,
}
use go_repo_dojo.Commit.TreeOf.{read_commit_tree-commit_content}
use go_repo_dojo.Commit.RoundTrip.{parse_commit-commit_content}

abbrev the_tree : Hash
the_tree = sha1_hash (replicate 20 0x0a)

abbrev the_parent : Hash
the_parent = sha1_hash (replicate 20 0xff)

two_words : parse_ident_timestamp (codes "nobody 12") ≡ 0
unfolding parse_ident_timestamp split
two_words = refl

no_tree : read_commit_tree sha1_hash_kind (codes "parent x") ≡ err missing_tree
unfolding read_commit_tree has_prefix
no_tree = refl

no_blank_line : split_blank (codes "a\nb") ≡ (codes "a\nb", none)
unfolding split_blank
no_blank_line = refl

parse_commit-commit_content_example :
    parse_commit sha1_hash_kind (
      commit_content the_tree
        (the_parent ∷ [])
        (codes "A <a@b>")
        (codes "C <c@d>")
        1700000000
        (codes "Fix\n\nit\n"))
    ≡ record {
      tree = some the_tree;
      parent_oids = the_parent ∷ [];
      author = ident (codes "A <a@b>") 1700000000;
      committer = ident (codes "C <c@d>") 1700000000;
      message = trim_right newline (codes "Fix\n\nit\n");
      timestamp = 1700000000;
    }
parse_commit-commit_content_example =
    parse_commit-commit_content sha1_hash_kind the_tree (the_parent ∷ []) (codes "A <a@b>")
      (codes "C <c@d>") (codes "Fix\n\nit\n") 1700000000 (omega arith) (omega arith, tt)
      (omega arith) (omega arith) (omega arith)

read_commit_tree-commit_content_example :
    read_commit_tree sha1_hash_kind
      (commit_content the_tree (the_parent ∷ []) (codes "A <a@b>") (codes "C <c@d>") 0 (codes "x"))
    ≡ ok the_tree
read_commit_tree-commit_content_example =
    read_commit_tree-commit_content sha1_hash_kind the_tree (the_parent ∷ []) (codes "A <a@b>")
      (codes "C <c@d>") (codes "x") 0 (omega arith)
