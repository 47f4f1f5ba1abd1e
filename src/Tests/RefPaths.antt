-- ===== src/Tests/RefPaths.antt =====
-- Names and paths of refs at concrete inputs.
use go_repo_dojo.Base.{◌≡◌, ◌≢◌, refl, none, some, ◌∷◌, ◌++◌, true, false, arith, bytes_eq, codes}
use go_repo_dojo.Ref.{
  Ref, ref_tag, ref_remote, ref_other, plain, to_path, ref_from_path, validate_ref_name,
  validate_branch_name, refs_slash,
}
use go_repo_dojo.Ref.Paths.{ref_from_path-to_path, to_path-ref_other}

valid_names :
    (validate_ref_name (codes "feature/x-1") ≡ true)
    × (validate_ref_name (codes "a..b") ≡ false)
    × (validate_ref_name (codes "x.lock") ≡ false)
    × (validate_ref_name (codes "a//b") ≡ false)
    × (validate_branch_name (codes "HEAD") ≡ false)
unfolding validate_branch_name
valid_names = (refl, refl, refl, refl, refl)

abbrev origin : Ref
origin = record { kind = ref_remote; name = codes "feature/x"; remote_name = codes "origin" }

ref_from_path-to_path_example : ref_from_path (to_path origin) none ≡ some origin
ref_from_path-to_path_example = ref_from_path-to_path origin none (omega arith)

tag_parsed : ref_from_path (codes "refs/tags/v1/rc") none ≡ some (plain ref_tag (codes "v1/rc"))
unfolding ref_from_path
tag_parsed = refl

to_path-ref_other_example :
    (ref_from_path (refs_slash ++ (codes "notes" ++ (b'/' ∷ codes "commits"))) none
      ≡ some (plain ref_other (codes "commits")))
    × (to_path (plain ref_other (codes "commits")) ≡ refs_slash ++ codes "commits")
    × (to_path (plain ref_other (codes "commits"))
        ≢ refs_slash ++ (codes "notes" ++ (b'/' ∷ codes "commits")))
unfolding bytes_eq
to_path-ref_other_example =
    to_path-ref_other (codes "notes") (codes "commits") none (omega arith) refl refl refl
