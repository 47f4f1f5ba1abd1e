-- ===== src/Tests/Requests.antt =====
-- A request of two updates, the features behind the first.
use go_repo_dojo.Base.{
  bytes_eq, All, List, false, descendent_not_found, ◌≡◌, refl, some, none, [], ◌∷◌, ◌++◌, arith,
  true, codes, replicate, ok, err, unsupported_object_format,
}
use go_repo_dojo.Hash.{Hash, sha1_hash_kind, sha256_hash_kind, sha1_hash, hex, is_null, hash_equal}
use go_repo_dojo.Hash.Laws.{HasKind}
use go_repo_dojo.Pkt.{chomp}
use go_repo_dojo.ReceivePack.{
  RefUpdate, ReceivePack, new_receive_pack, note_features, read_ref_updates, get_feature_value,
}
use go_repo_dojo.Text.{has_prefix, join}
use go_repo_dojo.ReceivePack.Features.{
  Feature, asks_status_v2, asks_side_band, says_format, says_other, features_text, IsFeature,
}
use go_repo_dojo.ReceivePack.Checks.{
  refused, judge_descendent, write_receive_error, check_ref_update,
}
use go_repo_dojo.ReceivePack.FastForward.{Lets, check_ref_update-Named}
use go_repo_dojo.Merge.Graph.{Named}
use go_repo_dojo.Tests.Merges.{
  root, left, history, weight, weight-root, weight-left, history-Weighs, history-ne-err,
}
use go_repo_dojo.ReceivePack.Request.{Asked, IsAsked, request, wanted, read_ref_updates-request}

abbrev no_commit : Hash
no_commit = sha1_hash (replicate 20 0)

abbrev new_commit : Hash
new_commit = sha1_hash (replicate 20 0x1a)

abbrev client_features : List Feature
client_features =
    says_other []
    ∷ asks_status_v2
    ∷ asks_side_band
    ∷ says_format (codes "sha1")
    ∷ says_other (codes "agent=git/2.43")
    ∷ []

as_sent :
    features_text client_features
    ≡ codes " report-status-v2 side-band-64k object-format=sha1 agent=git/2.43"
unfolding join
as_sent = refl

abbrev first_ask : Asked
first_ask = record {
  old_oid = no_commit;
  new_oid = new_commit;
  ref_name = codes "refs/heads/main";
  features = some client_features;
}

abbrev second_ask : Asked
second_ask = record {
  old_oid = new_commit;
  new_oid = no_commit;
  ref_name = codes "refs/tags/v1";
  features = none;
}

abbrev server_after : ReceivePack
server_after = record new_receive_pack { report_status_v2 = true; use_sideband = true }

other_format :
    note_features sha256_hash_kind new_receive_pack (codes "object-format=sha1")
    ≡ err unsupported_object_format
unfolding note_features
other_format = refl

-- A feature of another name that begins alike is not the feature.
name_of_other :
    get_feature_value (codes "object-formats=x object-format=sha256") (codes "object-format")
    ≡ codes "sha256"
unfolding get_feature_value
name_of_other = refl

zero_bytes : HasKind sha1_hash_kind no_commit
zero_bytes = omega arith

one_bytes : HasKind sha1_hash_kind new_commit
one_bytes = omega arith

client-IsFeature : All IsFeature client_features
unfolding has_prefix
client-IsFeature = (
  (omega arith, refl, refl, refl),
  (tt, (tt, (omega arith, ((omega arith, refl, refl, refl), tt)))),
)

first-IsAsked : IsAsked sha1_hash_kind first_ask
unfolding chomp hex join
first-IsAsked = (zero_bytes, one_bytes, grind arith, omega arith, refl, client-IsFeature)

second-IsAsked : IsAsked sha1_hash_kind second_ask
unfolding chomp hex
second-IsAsked = (one_bytes, zero_bytes, grind arith, omega arith, refl, tt)

read_ref_updates-request_example :
    read_ref_updates sha1_hash_kind new_receive_pack
      (request (first_ask ∷ second_ask ∷ []) ++ codes "PACK")
    ≡ some (ok (wanted first_ask ∷ wanted second_ask ∷ [], (server_after, codes "PACK")))
unfolding bytes_eq
read_ref_updates-request_example =
    read_ref_updates-request sha1_hash_kind new_receive_pack (first_ask ∷ second_ask ∷ [])
      (codes "PACK") (first-IsAsked, (second-IsAsked, tt))

abbrev strict : ReceivePack
strict = record new_receive_pack { deny_non_fast_forwards = true }

-- A branch moves from the root of the history to a commit on it.
abbrev forward : RefUpdate
forward = record {
  error_message = [];
  skip_update = false;
  old_oid = root;
  new_oid = left;
  ref_name = codes "refs/heads/topic";
}

abbrev backward : RefUpdate
backward = record forward { old_oid = left; new_oid = root }

-- The reverse is refused.
refuses_backward :
    judge_descendent backward [] false (some (ok left))
    ≡ some (
      write_receive_error []
          (codes "denying non-fast-forward refs/heads/topic (you should pull first)"),
      refused (codes "non-fast-forward"),
    )
unfolding judge_descendent hash_equal
refuses_backward = refl

forward-ne-null : (is_null root ≡ false) × (is_null left ≡ false)
unfolding is_null
forward-ne-null = (refl, refl)

check_ref_update-Named_example :
    Lets (Named history left (hex root)) (check_ref_update 4 history strict forward [])
unfolding has_prefix
check_ref_update-Named_example =
    check_ref_update-Named history weight strict forward [] 4 history-Weighs
      (history-ne-err descendent_not_found (λ e. cc e)) (omega (arith, weight-left, weight-root))
      refl forward-ne-null.0 forward-ne-null.1 refl
