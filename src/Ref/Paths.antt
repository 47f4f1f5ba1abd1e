-- ===== src/Ref/Paths.antt =====
-- `ToPath` and `refFromPath` against each other.
use go_repo_dojo.Base.{
  ℕ, ◌≡◌, ◌≢◌, refl, ap, ◌∙◌, sym, inl, inr, none, some, Option, List, [], ◌∷◌, ◌++◌, false, ◌⊎◌,
  arith, Bytes, codes, bytes_eq, bytes_eq_iff, length, length-append,
}
use go_repo_dojo.Text.{split, join}
use go_repo_dojo.Text.Laws.{Lacks, join-split, split-ne-nil, split-append}
use go_repo_dojo.Ref.{
  Ref, RefKind, ref_none, ref_head, ref_tag, ref_remote, ref_other, plain, path_of, to_path,
  unqualified, remote_ref, qualified, from_parts, ref_from_path, refs_slash,
}

-- A text in front of its parts: some first part, and the others.
split-cons : (s : Bytes) (sep : ℕ) → (p : Bytes) × (ps : List Bytes) × (split s sep ≡ p ∷ ps)
split-cons s sep = go (split s sep) refl
  where
    go :
        (l : List Bytes)
        → split s sep ≡ l
        → (p : Bytes) × (ps : List Bytes) × (split s sep ≡ p ∷ ps)
    go [] e = absurd (split-ne-nil s sep e)
    go (p ∷ ps) e = (p, ps, e)

remotes-split :
    (s : Bytes)
    → split (codes "refs/remotes/" ++ s) b'/' ≡ codes "refs" ∷ codes "remotes" ∷ split s b'/'
unfolding split
remotes-split s = refl

joined : (s : Bytes) {p : Bytes} {ps : List Bytes} → split s b'/' ≡ p ∷ ps → join (p ∷ ps) b'/' ≡ s
joined s e = ap (λ (l : List Bytes). join l b'/') (sym e) ∙ join-split s b'/'

head-ref_from_path :
    (name : Bytes) (d : Option RefKind)
    → ref_from_path (codes "refs/heads/" ++ name) d ≡ some (plain ref_head name)
unfolding ref_from_path
head-ref_from_path name d =
    let (p, ps, e) = split-cons name b'/' in
    rw e (ap (λ (n : Bytes). some (plain ref_head n)) (joined name e))

tag-ref_from_path :
    (name : Bytes) (d : Option RefKind)
    → ref_from_path (codes "refs/tags/" ++ name) d ≡ some (plain ref_tag name)
unfolding ref_from_path
tag-ref_from_path name d =
    let (p, ps, e) = split-cons name b'/' in
    rw e (ap (λ (n : Bytes). some (plain ref_tag n)) (joined name e))

remote-ref_from_path :
    (remote name : Bytes) (d : Option RefKind)
    → Lacks b'/' remote
    → ref_from_path (codes "refs/remotes/" ++ (remote ++ (b'/' ∷ name))) d
      ≡ some (record { kind = ref_remote; name = name; remote_name = remote })
unfolding ref_from_path
remote-ref_from_path remote name d h =
    let (p, ps, e) = split-cons name b'/' in
    rw (remotes-split (remote ++ (b'/' ∷ name)), split-append remote name b'/' h, e)
      (ap (λ (n : Bytes). some (record { kind = ref_remote; name = n; remote_name = remote }))
        (joined name e))

abbrev Named : RefKind → Bytes → Bytes → Type 0
Named ref_none name remote =
    ((name ≡ codes "HEAD") ⊎ (name ≡ codes "MERGE_HEAD") ⊎ (name ≡ codes "CHERRY_PICK_HEAD"))
    × (remote ≡ [])
Named ref_head name remote = remote ≡ []
Named ref_tag name remote = remote ≡ []
Named ref_remote name remote = Lacks b'/' remote
Named ref_other name remote = ⊥

-- A ref that its path names: HEAD and its kin with no "refs" in front, a branch or a tag with any
-- name, or a branch of a remote whose name holds no slash. The kind `ref_other` is not among them.
abbrev pub IsNamed : Ref → Type 0
IsNamed r = Named r.kind r.name r.remote_name

special-ref_from_path :
    (name : Bytes) (d : Option RefKind)
    → (name ≡ codes "HEAD") ⊎ (name ≡ codes "MERGE_HEAD") ⊎ (name ≡ codes "CHERRY_PICK_HEAD")
    → ref_from_path name d ≡ some (plain ref_none name)
unfolding ref_from_path
special-ref_from_path name d (inl e) = rw e refl
special-ref_from_path name d (inr (inl e)) = rw e refl
special-ref_from_path name d (inr (inr e)) = rw e refl

path_of-round :
    (k : RefKind) (name remote : Bytes) (d : Option RefKind)
    → Named k name remote
    → ref_from_path (path_of k name remote) d
      ≡ some (record { kind = k; name = name; remote_name = remote })
unfolding path_of
path_of-round ref_none name remote d (h, e) = rw e (special-ref_from_path name d h)
path_of-round ref_head name remote d e = rw e (head-ref_from_path name d)
path_of-round ref_tag name remote d e = rw e (tag-ref_from_path name d)
path_of-round ref_remote name remote d h = remote-ref_from_path remote name d h
path_of-round ref_other name remote d h = absurd h

-- The path of a named ref is parsed back to the ref, whatever the default kind.
pub ref_from_path-to_path :
    (r : Ref) (d : Option RefKind) → IsNamed r → ref_from_path (to_path r) d ≡ some r
unfolding to_path
ref_from_path-to_path r d h = path_of-round r.kind r.name r.remote_name d h

from_parts-to_path :
    (path : Bytes) (parts : List Bytes) {r : Ref}
    → join parts b'/' ≡ path
    → from_parts path parts none ≡ some r
    → r.kind ≢ ref_other
    → to_path r ≡ path
unfolding from_parts qualified remote_ref unqualified to_path join
from_parts-to_path path [] j e ne = cc
from_parts-to_path path (first ∷ []) j e ne = ground arith
from_parts-to_path path (first ∷ second ∷ []) j e ne = ground arith
from_parts-to_path path (first ∷ second ∷ p ∷ []) j e ne = ground (
  arith,
  bytes_eq_iff first (codes "refs"),
  bytes_eq_iff second (codes "heads"),
  bytes_eq_iff second (codes "tags"),
  bytes_eq_iff second (codes "remotes"),
)
from_parts-to_path path (first ∷ second ∷ p ∷ q ∷ qs) j e ne = ground (
  arith,
  bytes_eq_iff first (codes "refs"),
  bytes_eq_iff second (codes "heads"),
  bytes_eq_iff second (codes "tags"),
  bytes_eq_iff second (codes "remotes"),
)

-- A path that is parsed with no default kind is the path of the ref that comes out, unless that is
-- of the kind `ref_other`.
pub to_path-ref_from_path :
    (path : Bytes) {r : Ref}
    → ref_from_path path none ≡ some r
    → r.kind ≢ ref_other
    → to_path r ≡ path
unfolding ref_from_path
to_path-ref_from_path path e ne =
    from_parts-to_path path (split path b'/') (join-split path b'/') e ne

-- Under "refs/" any directory but heads, tags and remotes is lost: the ref that is read from a path
-- in it has another path.
pub to_path-ref_other :
    (dir name : Bytes) (d : Option RefKind)
    → Lacks b'/' dir
    → bytes_eq dir (codes "heads") ≡ false
    → bytes_eq dir (codes "tags") ≡ false
    → bytes_eq dir (codes "remotes") ≡ false
    → (ref_from_path (refs_slash ++ (dir ++ (b'/' ∷ name))) d ≡ some (plain ref_other name))
      × (to_path (plain ref_other name) ≡ refs_slash ++ name)
      × (to_path (plain ref_other name) ≢ refs_slash ++ (dir ++ (b'/' ∷ name)))
unfolding ref_from_path to_path
to_path-ref_other dir name d h e1 e2 e3 =
    let (p, ps, e) = split-cons name b'/' in
    (
      rw (split-append dir name b'/' h, e, e1, e2, e3)
          (ap (λ (n : Bytes). some (plain ref_other n)) (joined name e)),
      refl,
      λ same. longer same,
    )
  where
    longer : refs_slash ++ name ≡ refs_slash ++ (dir ++ (b'/' ∷ name)) → ⊥
    longer same = omega (arith, ap length same, length-append dir (b'/' ∷ name))
