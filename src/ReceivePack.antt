-- ===== src/ReceivePack.antt =====
-- net_server_receive_pack.go: the ref updates that a client of receive-pack asks for. The server's
-- record is passed on from step to step; the record that an error leaves behind is not given back,
-- since the callers end the session then.
pub mod Checks
pub mod FastForward
pub mod Features
pub mod Request
use go_repo_dojo.Base.{
  ℕ, zero, suc, ◌+◌, Bool, true, false, ◌||◌, Option, none, some, List, [], ◌∷◌, ◌++◌, ◌==◌, ltb,
  if◌then◌else◌, Bytes, codes, bytes_eq, length, take, drop, get_elem?, Result, ok, err, ◌>>=◌,
  or_err, after, after_loop, Error, unsupported_object_format, invalid_ref_update_line,
  invalid_old_oid, invalid_new_oid, no_sideband,
}
use go_repo_dojo.Text.{index_byte, has_prefix, split}
use go_repo_dojo.Hash.{HashKind, sha1_hash_kind, sha256_hash_kind, Hash, hex_len, hash_from_hex}
use go_repo_dojo.Pkt.{read_pkt_line}

unfoldable pub hash_name : HashKind → Bytes
hash_name sha1_hash_kind = codes "sha1"
hash_name sha256_hash_kind = codes "sha256"

pub record RefUpdate : Type 0 where
  pub error_message : Bytes
  pub skip_update : Bool
  pub old_oid : Hash
  pub new_oid : Hash
  pub ref_name : Bytes

pub data DenyPolicy : Type 0 where
  deny_unconfigured deny_ignore deny_warn deny_refuse deny_update_instead : DenyPolicy

pub record ReceivePack : Type 0 where
  pub prefer_ofs_delta : Bool
  pub is_bare : Bool
  pub deny_deletes : Bool
  pub deny_non_fast_forwards : Bool
  pub deny_current_branch : DenyPolicy
  pub deny_delete_current : DenyPolicy
  pub sent_capabilities : Bool
  pub use_sideband : Bool
  pub report_status : Bool
  pub report_status_v2 : Bool
  pub head_name : Bytes

unfoldable pub new_receive_pack : ReceivePack
new_receive_pack = record {
  prefer_ofs_delta = true;
  is_bare = false;
  deny_deletes = false;
  deny_non_fast_forwards = false;
  deny_current_branch = deny_unconfigured;
  deny_delete_current = deny_unconfigured;
  sent_capabilities = false;
  use_sideband = false;
  report_status = false;
  report_status_v2 = false;
  head_name = [];
}

abbrev with_equals : Bytes → Bytes
with_equals name = name ++ (b'=' ∷ [])

unfoldable pub any_feature : List Bytes → Bytes → Bool
unfolding has_prefix bytes_eq
any_feature [] name = false
any_feature (f ∷ fs) name =
    (bytes_eq f name || has_prefix f (with_equals name)) || any_feature fs name

unfoldable pub has_feature : Bytes → Bytes → Bool
unfolding split any_feature
has_feature features name = any_feature (split features b' ') name

-- No such feature gives the empty string.
unfoldable pub first_value : List Bytes → Bytes → Bytes
unfolding has_prefix
first_value [] name = []
first_value (f ∷ fs) name =
    if has_prefix f (with_equals name) then drop (length name + 1) f else first_value fs name

unfoldable pub get_feature_value : Bytes → Bytes → Bytes
unfolding split first_value
get_feature_value features name = first_value (split features b' ') name

-- `if objHash == "" { objHash = "sha1" }`
or_sha1 : Bytes → Bytes
or_sha1 [] = codes "sha1"
or_sha1 (c ∷ s) = c ∷ s

-- What `readRefUpdates` does with the features behind a NUL.
unfoldable pub note_features : HashKind → ReceivePack → Bytes → Result ReceivePack
unfolding has_feature get_feature_value or_sha1 hash_name bytes_eq
note_features k rp features =
    if bytes_eq (or_sha1 (get_feature_value features (codes "object-format"))) (hash_name k)
    then ok (record rp {
      report_status = has_feature features (codes "report-status") || rp.report_status;
      report_status_v2 = has_feature features (codes "report-status-v2") || rp.report_status_v2;
      use_sideband = has_feature features (codes "side-band-64k") || rp.use_sideband;
    })
    else err unsupported_object_format

-- `if lineData[i] != ' '`; the guard on the length keeps `i` inside of the line.
space_at : Bytes → ℕ → Bool
space_at data' i = elim (get_elem? data' i) [ none ↦ false | some c ↦ c == b' ' ]

-- `fmt.Errorf("…: %w", err)`
instead {ℓ} : {A : Type ℓ} → Result A → Error → Result A
instead (ok a) e = ok a
instead (err _) e = err e

-- The new hash and the name, behind the first space.
unfoldable pub parse_new : HashKind → Hash → Bytes → Result RefUpdate
unfolding space_at instead
parse_new k old data' = do
  new ← instead (hash_from_hex k (take (hex_len k) (drop (hex_len k + 1) data'))) invalid_new_oid
  if space_at data' (hex_len k + 1 + hex_len k)
      then ok (record {
        error_message = [];
        skip_update = false;
        old_oid = old;
        new_oid = new;
        ref_name = drop (hex_len k + 1 + hex_len k + 1) data';
      })
      else err invalid_ref_update_line

unfoldable pub parse_ref_update : HashKind → Bytes → Result RefUpdate
unfolding space_at instead
parse_ref_update k data' =
    if ltb (length data') (hex_len k + 1 + hex_len k + 1) then err invalid_ref_update_line else (do
      old ← instead (hash_from_hex k (take (hex_len k) data')) invalid_old_oid
      if space_at data' (hex_len k) then parse_new k old data' else err invalid_ref_update_line)

-- One line: the features behind its NUL first, then what stands before it.
unfoldable pub read_ref_update : HashKind → ReceivePack → Bytes → Result (RefUpdate × ReceivePack)
read_ref_update k rp line = elim (index_byte line 0) [
  | none ↦ do u ← parse_ref_update k line; ok (u, rp)
  | some i ↦ do
    rp' ← note_features k rp (drop (i + 1) line)
    u ← parse_ref_update k (take i line)
    ok (u, rp')
]

-- The loop, up to the flush packet. Each round takes four bytes at least from the reader, so that
-- one round more than the reader has bytes is enough.
unfoldable pub read_update_lines :
    HashKind
    → ℕ
    → ReceivePack
    → List RefUpdate
    → Bytes
    → Option (Result (List RefUpdate × (ReceivePack × Bytes)))
read_update_lines k zero rp us r = none
read_update_lines k (suc fuel) rp us r = elim (read_pkt_line r) [
  | err e ↦ some (err e)
  | ok (none, r') ↦ some (ok (us, (rp, r')))
  | ok (some line, r') ↦
      after (read_ref_update k rp line)
        (λ (u, rp'). read_update_lines k fuel rp' (us ++ (u ∷ [])) r')
]

with_sideband :
    List RefUpdate × (ReceivePack × Bytes) → Result (List RefUpdate × (ReceivePack × Bytes))
with_sideband (us, (rp, r)) = if rp.use_sideband then ok (us, (rp, r)) else err no_sideband

unfoldable pub read_ref_updates :
    HashKind → ReceivePack → Bytes → Option (Result (List RefUpdate × (ReceivePack × Bytes)))
unfolding with_sideband
read_ref_updates k rp r =
    after_loop (read_update_lines k (suc (length r)) rp [] r) (λ x. some (with_sideband x))
