-- ===== src/Commit/RoundTrip.antt =====
-- object.go: a commit that was written is parsed back.
use go_repo_dojo.Base.{
  ℕ, ◌-◌, ◌^◌, ◌≤◌, ◌≡◌, ◌≢◌, refl, sym, ap, ◌∙◌, false, ◌==◌, Option, some, List, [], ◌∷◌, ◌++◌,
  map, append-nil, append_assoc, arith, Bytes, codes, All, All-append, Result,
}
use go_repo_dojo.Number.{format_uint}
use go_repo_dojo.Number.RoundTrip.{format_uint-Lacks}
use go_repo_dojo.Text.{join, has_prefix, trim_right}
use go_repo_dojo.Text.Laws.{Lacks, split-join}
use go_repo_dojo.Hash.{HashKind, Hash, hex}
use go_repo_dojo.Hash.Laws.{HasKind, hex-Lacks, hash_from_hex-hex}
use go_repo_dojo.Commit.{
  split_blank, CommitContent, empty_commit, with_tree, with_parent, commit_line, commit_lines,
  commit_message, newline, parse_commit, parse_ident_timestamp, ident, parent_line, header_lines,
  commit_content,
}
use go_repo_dojo.Commit.Ident.{parse_ident_timestamp-ident}

abbrev Starts : Bytes → Type 0
Starts s = (x : ℕ) × (t : Bytes) × (s ≡ x ∷ t) × (x ≢ b'\n')

differs : (c : ℕ) → c ≢ b'\n' → (c == b'\n') ≡ false
differs c ne = ground arith

split_blank_end :
    (p m : Bytes) → Lacks b'\n' p → split_blank (p ++ (b'\n' ∷ b'\n' ∷ m)) ≡ (p, some m)
unfolding split_blank
split_blank_end [] m h = refl
split_blank_end (c ∷ []) m (hc, h) = rw (differs c hc) refl
split_blank_end (c ∷ d ∷ p) m (hc, h) = rw (differs c hc, split_blank_end (d ∷ p) m h) refl

split_blank_next :
    (p s : Bytes)
    → Lacks b'\n' p
    → Starts s
    → split_blank (p ++ (b'\n' ∷ s)) ≡ (p ++ (b'\n' ∷ (split_blank s).0), (split_blank s).1)
unfolding split_blank
split_blank_next [] s h (x, t, e, ne) = rw (e, differs x ne) refl
split_blank_next (c ∷ []) s (hc, h) st = rw (differs c hc, split_blank_next [] s h st) refl
split_blank_next (c ∷ d ∷ p) s (hc, h) st = rw (differs c hc, split_blank_next (d ∷ p) s h st) refl

abbrev IsLine : Bytes → Type 0
IsLine p = Starts p × Lacks b'\n' p

Starts-append : (p s : Bytes) → Starts p → Starts (p ++ s)
Starts-append p s (x, t, e, ne) = (x, t ++ s, ap (λ (q : Bytes). q ++ s) e, ne)

Starts-join : (p : Bytes) (ps : List Bytes) → Starts p → Starts (join (p ∷ ps) b'\n')
unfolding join
Starts-join p [] st = st
Starts-join p (q ∷ ps) st = Starts-append p _ st

-- The header ends at the first blank line.
split_blank-join :
    (p : Bytes) (ps : List Bytes) (m : Bytes)
    → Lacks b'\n' p
    → All IsLine ps
    → split_blank (join (p ∷ (ps ++ ((b'\n' ∷ m) ∷ []))) b'\n') ≡ (join (p ∷ ps) b'\n', some m)
unfolding join
split_blank-join p [] m h hs = split_blank_end p m h
split_blank-join p (q ∷ ps) m h ((st, hq), hs) =
    split_blank_next p (join (q ∷ (ps ++ ((b'\n' ∷ m) ∷ []))) b'\n') h
      (Starts-join q (ps ++ ((b'\n' ∷ m) ∷ [])) st)
    ∙ ap (λ (r : Bytes × Option Bytes). (p ++ (b'\n' ∷ r.0), r.1)) (split_blank-join q ps m hq hs)

ident-Lacks : (who : Bytes) (ts : ℕ) → Lacks b'\n' who → Lacks b'\n' (ident who ts)
unfolding ident
ident-Lacks who ts h =
    All-append (λ (c : ℕ). c ≢ b'\n') who _ h
      (
        omega arith,
        All-append (λ (c : ℕ). c ≢ b'\n') (format_uint 10 ts) _
            (format_uint-Lacks 10 ts b'\n' (omega arith) (omega arith) (omega arith)) (omega arith),
      )

tree_line_lem :
    (k : HashKind) (t : Hash) (c : CommitContent)
    → HasKind k t
    → commit_line k (codes "tree " ++ hex t) c ≡ record c { tree = some t }
unfolding commit_line has_prefix
tree_line_lem k t c h =
    ap (λ (r : Result Hash). with_tree r c) ((hash_from_hex-hex k t h).1) ∙ unfold with_tree in refl

parent_line_lem :
    (k : HashKind) (p : Hash) (c : CommitContent)
    → HasKind k p
    → commit_line k (parent_line p) c ≡ record c { parent_oids = c.parent_oids ++ (p ∷ []) }
unfolding commit_line has_prefix
parent_line_lem k p c h =
    ap (λ (r : Result Hash). with_parent r c) ((hash_from_hex-hex k p h).1)
    ∙ unfold with_parent in refl

-- What the lines of a written commit leave, one after the other.
commit_lines-parents :
    (k : HashKind) (ps : List Hash) (lines : List Bytes) (c : CommitContent)
    → All (HasKind k) ps
    → commit_lines k (map parent_line ps ++ lines) c
      ≡ commit_lines k lines (record c { parent_oids = c.parent_oids ++ ps })
unfolding commit_lines
commit_lines-parents k [] lines c h =
    ap (λ (os : List Hash). commit_lines k lines (record c { parent_oids = os }))
      (sym (append-nil c.parent_oids))
commit_lines-parents k (p ∷ ps) lines c (hp, h) =
    ap (commit_lines k (map parent_line ps ++ lines)) (parent_line_lem k p c hp)
    ∙ (commit_lines-parents k ps lines (record c { parent_oids = c.parent_oids ++ (p ∷ []) }) h
        ∙ ap (λ (os : List Hash). commit_lines k lines (record c { parent_oids = os }))
            (append_assoc c.parent_oids (p ∷ []) ps))

commit_lines-header_lines :
    (k : HashKind) (tree : Hash) (parents : List Hash) (author committer : Bytes) (ts : ℕ)
    (c : CommitContent)
    → HasKind k tree
    → All (HasKind k) parents
    → commit_lines k (header_lines tree parents author committer ts) c ≡ record {
      tree = some tree;
      parent_oids = c.parent_oids ++ parents;
      author = ident author ts;
      committer = ident committer ts;
      message = c.message;
      timestamp = parse_ident_timestamp (ident committer ts);
    }
unfolding commit_lines commit_line has_prefix header_lines
commit_lines-header_lines k tree parents author committer ts c ht hp =
    ap
      (commit_lines k (
        map parent_line parents
        ++ ((codes "author " ++ ident author ts)
            ∷ (codes "committer " ++ ident committer ts)
            ∷ [])))
      (tree_line_lem k tree c ht)
    ∙ commit_lines-parents k parents _ (record c { tree = some tree }) hp

prefixed_Lacks : (p s : Bytes) → Lacks b'\n' p → Lacks b'\n' s → Lacks b'\n' (p ++ s)
prefixed_Lacks p s = All-append (λ (c : ℕ). c ≢ b'\n') p s

map-IsLine : (k : HashKind) (ps : List Hash) → All (HasKind k) ps → All IsLine (map parent_line ps)
map-IsLine k [] h = tt
map-IsLine k (p ∷ ps) (hp, h) = (
  (
    (b'p', (codes "arent " ++ hex p), refl, omega arith),
    prefixed_Lacks (codes "parent ") (hex p) (omega arith) (hex-Lacks b'\n' (omega arith) k p hp),
  ),
  map-IsLine k ps h,
)

IsLine-Lacks : (ps : List Bytes) → All IsLine ps → All (Lacks b'\n') ps
IsLine-Lacks [] h = tt
IsLine-Lacks (p ∷ ps) ((st, hp), h) = (hp, IsLine-Lacks ps h)

-- A commit that `writeCommit` stored without a signature is parsed with its tree, its parents in order,
-- the author, the committer and the time. The message loses the newlines at its end. The names have
-- no newline, the hashes are of the repository's kind, and the time is a uint64.
pub parse_commit-commit_content :
    (k : HashKind) (tree : Hash) (parents : List Hash) (author committer message : Bytes) (ts : ℕ)
    → HasKind k tree
    → All (HasKind k) parents
    → Lacks b'\n' author
    → Lacks b'\n' committer
    → ts ≤ 2 ^ 64 - 1
    → parse_commit k (commit_content tree parents author committer ts message) ≡ record {
      tree = some tree;
      parent_oids = parents;
      author = ident author ts;
      committer = ident committer ts;
      message = trim_right newline message;
      timestamp = ts;
    }
unfolding parse_commit commit_content header_lines commit_message empty_commit
parse_commit-commit_content k tree parents author committer message ts ht hp ha hc fits =
    rw
      (
        split_blank-join tree_line rest message tree_lacks rest_lines,
        split-join tree_line rest b'\n' tree_lacks (IsLine-Lacks rest rest_lines),
      )
      (commit_lines-header_lines k tree parents author committer ts (commit_message (some message))
          ht hp
        ∙ ap (λ (n : ℕ). the_commit n) (parse_ident_timestamp-ident committer ts fits))
  where
    tree_line : Bytes
    tree_line = codes "tree " ++ hex tree

    rest : List Bytes
    rest =
        map parent_line parents
        ++ ((codes "author " ++ ident author ts) ∷ (codes "committer " ++ ident committer ts) ∷ [])

    tree_lacks : Lacks b'\n' tree_line
    tree_lacks =
        prefixed_Lacks (codes "tree ") (hex tree) (omega arith)
          (hex-Lacks b'\n' (omega arith) k tree ht)

    rest_lines : All IsLine rest
    rest_lines = All-append IsLine (map parent_line parents) _ (map-IsLine k parents hp) (
      (
        (b'a', codes "uthor " ++ ident author ts, refl, omega arith),
        prefixed_Lacks (codes "author ") (ident author ts) (omega arith) (ident-Lacks author ts ha),
      ),
      (
        (
          (b'c', codes "ommitter " ++ ident committer ts, refl, omega arith),
          prefixed_Lacks (codes "committer ") (ident committer ts) (omega arith)
              (ident-Lacks committer ts hc),
        ),
        tt,
      ),
    )

    the_commit : ℕ → CommitContent
    the_commit n = record {
      tree = some tree;
      parent_oids = parents;
      author = ident author ts;
      committer = ident committer ts;
      message = trim_right newline message;
      timestamp = n;
    }
