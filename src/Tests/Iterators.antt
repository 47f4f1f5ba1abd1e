-- ===== src/Tests/Iterators.antt =====
-- The object iterator on a small history.
use go_repo_dojo.Base.{
  ℕ, ◌≡◌, refl, sym, ap, true, inl, inr, Option, none, some, List, [], ◌∷◌, if◌then◌else◌, Bytes,
  codes, bytes_eq, bytes_eq_refl, map, map_get, map_set, contains, Result, ok, err,
  object_not_found, Ends, arith,
}
use go_repo_dojo.Hash.{Hash, hex, hash_from_hex, sha1_hash_kind}
use go_repo_dojo.Text.{split, has_prefix}
use go_repo_dojo.Object.{object_kind_commit}
use go_repo_dojo.Commit.{parse_commit, split_blank, commit_line, empty_commit}
use go_repo_dojo.Repo.{Object, new_object}
use go_repo_dojo.Iterator.{
  object_iter_commit, ObjectIteratorOptions, ObjectIterator, new_object_iterator, include, drain,
  content_refs,
}
use go_repo_dojo.Iterator.Routes.{Outweighs}
use go_repo_dojo.Iterator.Drained.{Covers, Failed, drain_correct}
use go_repo_dojo.Tests.Merges.{
  root, left, right, history, stored, commit_of, on_root, history_cases,
}

abbrev commits_only : ObjectIteratorOptions
commits_only = record { kind = object_iter_commit; max_depth = 0; full = true }

both_heads : ObjectIterator
both_heads = include commits_only right (include commits_only left new_object_iterator)

names_of : Option (Result (List Object)) → Option (List Hash)
names_of none = none
names_of (some (err e)) = none
names_of (some (ok os)) = some (map (λ (o : Object). o.oid) os)

three_commits : names_of (drain commits_only history 9 both_heads) ≡ some (left ∷ right ∷ root ∷ [])
unfolding names_of both_heads drain include contains map_get new_object_iterator new_object history
    bytes_eq hex parse_commit split split_blank commit_line has_prefix hash_from_hex empty_commit
    map_set
three_commits = refl

height : Bytes → ℕ
height name = if bytes_eq name (hex root) then 0 else 1

height-root : height (hex root) ≡ 0
unfolding height
height-root = rw (bytes_eq_refl (hex root))

refs_of :
    (a : Hash) (o : Object) (text : Bytes)
    → stored (hex a) ≡ ok (commit_of text)
    → new_object history a true ≡ ok o
    → content_refs object_iter_commit o
      ≡ content_refs object_iter_commit (record {
        oid = a;
        kind = object_kind_commit;
        size = 0;
        commit = some (parse_commit sha1_hash_kind text);
        tree = none;
        tag = none;
      })
unfolding new_object history commit_of
refs_of a o text e h =
    let read = rw e at h in
    ap
      (λ (r : Result Object). elim r [
        | err x ↦ content_refs object_iter_commit o
        | ok x ↦ content_refs object_iter_commit x
      ])
      (sym read)

not_stored :
    (a : Hash) (o : Object)
    → stored (hex a) ≡ err object_not_found
    → new_object history a true ≡ ok o
    → ⊥
unfolding new_object history
not_stored a o e h = cc (rw e at h)

-- The commits with this text refer to nothing, those with the other to the root.
height-left : height (hex left) ≡ 1
unfolding height hex bytes_eq
height-left = refl

height-right : height (hex right) ≡ 1
unfolding height hex bytes_eq
height-right = refl

history-Outweighs : Outweighs history object_iter_commit height
unfolding content_refs parse_commit split split_blank commit_line has_prefix empty_commit
    hash_from_hex hex height
history-Outweighs a o read = elim (history_cases a) [
  | inl (e, at) ↦ rw (refs_of a o (codes "\n\nx") at read) (omega arith)
  | inr (inl (e, at)) ↦ rw (refs_of a o on_root at read, e) (omega (arith, height-root))
  | inr (inr at) ↦ absurd (not_stored a o at read)
]

drain_correct_example :
    Ends
      (Covers history commits_only both_heads)
      (Failed history)
      (drain commits_only history 9 both_heads)
unfolding both_heads include contains map_get new_object_iterator
drain_correct_example =
    drain_correct history commits_only height both_heads 9 refl history-Outweighs
      (omega (arith, height-left, height-right))
