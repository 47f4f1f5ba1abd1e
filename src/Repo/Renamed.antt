-- ===== src/Repo/Renamed.antt =====
-- The store looks an object up by the name of its hash: hashes of one name have the same object, up to
-- the hash that the object carries.
use go_repo_dojo.Base.{
  ◌≡◌, refl, sym, ap, ◌∙◌, Bool, true, false, inl, inr, Bytes, Result, Result-cases, ok, err,
}
use go_repo_dojo.Hash.{HashKind, Hash, hex}
use go_repo_dojo.Object.{
  ObjectKind, object_kind_blob, object_kind_tree, object_kind_commit, object_kind_tag,
}
use go_repo_dojo.Tree.{parse_tree}
use go_repo_dojo.Repo.{Repo, Opened, Object, parse_content, object_of, new_object}

abbrev pub renamed : Hash → Object → Object
renamed b o = record o { oid = b }

abbrev pub rename : Hash → Result Object → Result Object
rename b (ok o) = ok (renamed b o)
rename b (err e) = err e

parse_content-renamed :
    (k : HashKind) (kind : ObjectKind) (content : Result Bytes) (b : Hash) (o : Object)
    → parse_content k kind content (renamed b o) ≡ rename b (parse_content k kind content o)
unfolding parse_content
parse_content-renamed k object_kind_blob content b o = refl
parse_content-renamed k object_kind_tree (err e) b o = refl
parse_content-renamed k object_kind_tree (ok s) b o = elim (Result-cases (parse_tree k s)) [
  | inl (es, e) ↦ rw e refl
  | inr (x, e) ↦ rw e refl
]
parse_content-renamed k object_kind_commit (err e) b o = refl
parse_content-renamed k object_kind_commit (ok s) b o = refl
parse_content-renamed k object_kind_tag (err e) b o = refl
parse_content-renamed k object_kind_tag (ok s) b o = refl

object_of-renamed :
    (k : HashKind) (a b : Hash) (full : Bool) (rdr : Opened)
    → object_of k b full rdr ≡ rename b (object_of k a full rdr)
unfolding object_of
object_of-renamed k a b true rdr = parse_content-renamed k rdr.header.kind rdr.content b _
object_of-renamed k a b false rdr = refl

new_object-rename :
    (repo : Repo) (a b : Hash) (full : Bool)
    → hex a ≡ hex b
    → new_object repo b full ≡ rename b (new_object repo a full)
unfolding new_object
new_object-rename repo a b full e = rw (sym e) (elim (Result-cases (repo.store (hex a))) [
  | inl (rdr, opened) ↦ rw opened (object_of-renamed repo.hash a b full rdr)
  | inr (x, opened) ↦ rw opened refl
])

pub new_object-renamed :
    (repo : Repo) (a b : Hash) (full : Bool) (o : Object)
    → hex a ≡ hex b
    → new_object repo a full ≡ ok o
    → new_object repo b full ≡ ok (renamed b o)
new_object-renamed repo a b full o e h = new_object-rename repo a b full e ∙ ap (rename b) h

-- An object carries the hash that it was asked for by.
pub new_object-oid :
    (repo : Repo) (a : Hash) (full : Bool) (o : Object) → new_object repo a full ≡ ok o → o.oid ≡ a
new_object-oid repo a full o h =
    ap (λ (r : Result Object). elim r [ err x ↦ a | ok x ↦ x.oid ])
      (sym h ∙ new_object-renamed repo a a full o refl h)
