-- ===== src/Commit.antt =====
-- Commits and tags of object.go: the text that `writeCommit` stores when no signing key is set, and the
-- parsers of both kinds.
pub mod Ident
pub mod RoundTrip
pub mod TreeOf
use go_repo_dojo.Base.{
  ℕ, zero, suc, ◌+◌, ◌-◌, Bool, true, false, ◌&&◌, ◌||◌, Option, none, some, List, [], ◌∷◌, ◌++◌,
  ◌==◌, ltb, if◌then◌else◌, Bytes, codes, map, length, get_elem?, take, drop, Result, ok, err,
  ◌>>=◌, missing_tree, tree_too_short,
}
use go_repo_dojo.Number.{format_uint, parse_uint}
use go_repo_dojo.Text.{split, join, has_prefix, trim_right}
use go_repo_dojo.Hash.{HashKind, hex_len, Hash, hex, hash_from_hex}
use go_repo_dojo.Object.{ObjectKind, object_kind_blob, object_kind_from_name}

abbrev onto_front : ℕ → Bytes × Option Bytes → Bytes × Option Bytes
onto_front c (front, rest) = (c ∷ front, rest)

-- `strings.SplitN(content, "\n\n", 2)`: the header, and what stands behind the first blank line, if
-- there is one.
unfoldable pub split_blank : Bytes → Bytes × Option Bytes
split_blank [] = ([], none)
split_blank (c ∷ []) = (c ∷ [], none)
split_blank (c ∷ d ∷ s) =
    let rest = split_blank (d ∷ s) in
    if c == b'\n' && d == b'\n' then ([], some s) else onto_front c rest

-- A nil hash is `none`.
pub record CommitContent : Type 0 where
  pub tree : Option Hash
  pub parent_oids : List Hash
  pub author : Bytes
  pub committer : Bytes
  pub message : Bytes
  pub timestamp : ℕ

unfoldable pub empty_commit : CommitContent
empty_commit = record {
  tree = none;
  parent_oids = [];
  author = [];
  committer = [];
  message = [];
  timestamp = 0;
}

or_zero : Option ℕ → ℕ
or_zero none = 0
or_zero (some n) = n

timestamp_of : List Bytes → ℕ
unfolding or_zero
timestamp_of parts = elim (get_elem? parts (length parts - 2)) [
  | none ↦ 0
  | some ts ↦ or_zero (parse_uint 10 64 ts)
]

-- The last but one of the parts between spaces, of three at least.
unfoldable pub parse_ident_timestamp : Bytes → ℕ
unfolding timestamp_of
parse_ident_timestamp ident =
    let parts = split ident b' ' in if ltb (length parts) 3 then 0 else timestamp_of parts

with_tree : Result Hash → CommitContent → CommitContent
with_tree (ok h) c = record c { tree = some h }
with_tree (err e) c = c

with_parent : Result Hash → CommitContent → CommitContent
with_parent (ok h) c = record c { parent_oids = c.parent_oids ++ (h ∷ []) }
with_parent (err e) c = c

-- One line of the header; a hash that does not parse, or an unknown line, is passed over.
unfoldable pub commit_line : HashKind → Bytes → CommitContent → CommitContent
unfolding with_tree with_parent
commit_line k line c =
    if has_prefix line (codes "tree ")
    then with_tree (hash_from_hex k (drop 5 line)) c
    else if has_prefix line (codes "parent ")
    then with_parent (hash_from_hex k (drop 7 line)) c
    else if has_prefix line (codes "author ")
    then record c { author = drop 7 line }
    else if has_prefix line (codes "committer ")
    then record c { committer = drop 10 line; timestamp = parse_ident_timestamp (drop 10 line) }
    else c

commit_lines : HashKind → List Bytes → CommitContent → CommitContent
commit_lines k [] c = c
commit_lines k (line ∷ lines) c = commit_lines k lines (commit_line k line c)

abbrev pub newline : ℕ → Bool
newline c = c == b'\n'

commit_message : Option Bytes → CommitContent
commit_message none = empty_commit
commit_message (some m) = record empty_commit { message = trim_right newline m }

-- `parseCommit` has no error of its own.
unfoldable pub parse_commit : HashKind → Bytes → CommitContent
unfolding commit_lines commit_message
parse_commit k content =
    let (header, m) = split_blank content in commit_lines k (split header b'\n') (commit_message m)

-- The tag starts with the zero `ObjectKind`, which is the blob's.
pub record TagContent : Type 0 where
  pub target : Option Hash
  pub kind : ObjectKind
  pub name : Bytes
  pub tagger : Bytes
  pub message : Bytes

with_target : Result Hash → TagContent → TagContent
with_target (ok h) t = record t { target = some h }
with_target (err e) t = t

with_kind : Result ObjectKind → TagContent → TagContent
with_kind (ok k) t = record t { kind = k }
with_kind (err e) t = t

unfoldable pub tag_line : HashKind → Bytes → TagContent → TagContent
unfolding with_target with_kind
tag_line k line t =
    if has_prefix line (codes "object ")
    then with_target (hash_from_hex k (drop 7 line)) t
    else if has_prefix line (codes "type ")
    then with_kind (object_kind_from_name (drop 5 line)) t
    else if has_prefix line (codes "tag ")
    then record t { name = drop 4 line }
    else if has_prefix line (codes "tagger ")
    then record t { tagger = drop 7 line }
    else t

tag_lines : HashKind → List Bytes → TagContent → TagContent
tag_lines k [] t = t
tag_lines k (line ∷ lines) t = tag_lines k lines (tag_line k line t)

tag_message : Option Bytes → Bytes
tag_message none = []
tag_message (some m) = m

unfoldable pub parse_tag : HashKind → Bytes → TagContent
unfolding tag_lines tag_message
parse_tag k content =
    let (header, m) = split_blank content in
    tag_lines k (split header b'\n') (record {
      target = none;
      kind = object_kind_blob;
      name = [];
      tagger = [];
      message = tag_message m;
    })

-- `readCommitTree` on the bytes of the commit.
unfoldable pub read_commit_tree : HashKind → Bytes → Result Hash
read_commit_tree k data' =
    if has_prefix data' (codes "tree ")
    then (if ltb (length data') (5 + hex_len k)
        then err tree_too_short
        else hash_from_hex k (take (hex_len k) (drop 5 data')))
    else err missing_tree

-- `author %s %d +0000` and `committer %s %d +0000` without their first words.
unfoldable pub ident : Bytes → ℕ → Bytes
ident who ts = who ++ (b' ' ∷ (format_uint 10 ts ++ codes " +0000"))

abbrev pub parent_line : Hash → Bytes
parent_line p = codes "parent " ++ hex p

-- The lines of `writeCommit` in front of the message.
unfoldable pub header_lines : Hash → List Hash → Bytes → Bytes → ℕ → List Bytes
header_lines tree parents author committer ts =
    (codes "tree " ++ hex tree)
    ∷ (map parent_line parents
        ++ ((codes "author " ++ ident author ts) ∷ (codes "committer " ++ ident committer ts) ∷ []))

-- `strings.Join(lines, "\n")`; the last line begins with a newline.
unfoldable pub commit_content : Hash → List Hash → Bytes → Bytes → ℕ → Bytes → Bytes
commit_content tree parents author committer ts message =
    join (header_lines tree parents author committer ts ++ ((b'\n' ∷ message) ∷ [])) b'\n'
