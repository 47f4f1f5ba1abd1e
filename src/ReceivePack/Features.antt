-- ===== src/ReceivePack/Features.antt =====
-- The features that a client sends, and what they mean to the server.
use go_repo_dojo.Base.{
  ◌≡◌, refl, ap, ◌∙◌, sym, inl, inr, Bool, Bool-cases, true, false, ◌||◌, List, [], ◌∷◌, ◌++◌,
  append-nil, map, arith, Bytes, codes, bytes_eq, bytes_eq_iff, ◌≢◌, All, All-append, if◌then◌else◌,
  ok, err, unsupported_object_format,
}
use go_repo_dojo.Text.{has_prefix, split, join}
use go_repo_dojo.Text.Laws.{Lacks, has_prefix-append, split-join}
use go_repo_dojo.Hash.{HashKind, sha1_hash_kind, sha256_hash_kind}
use go_repo_dojo.ReceivePack.{
  ReceivePack, hash_name, any_feature, first_value, or_sha1, has_feature, get_feature_value,
  note_features,
}

pub data Feature : Type 0 where
  asks_status asks_status_v2 asks_side_band : Feature
  says_format says_other : Bytes → Feature

abbrev pub word : Feature → Bytes
word asks_status = codes "report-status"
word asks_status_v2 = codes "report-status-v2"
word asks_side_band = codes "side-band-64k"
word (says_format v) = codes "object-format=" ++ v
word (says_other w) = w

-- With a space between any two.
abbrev pub features_text : List Feature → Bytes
features_text fs = join (map word fs) b' '

-- No spaces, and other words do not begin like the ones that the server knows.
abbrev pub IsFeature : Feature → Type 0
IsFeature (says_format v) = Lacks b' ' v
IsFeature (says_other w) =
    Lacks b' ' w
    × (has_prefix w (codes "report-status") ≡ false)
    × (has_prefix w (codes "side-band-64k") ≡ false)
    × (has_prefix w (codes "object-format") ≡ false)
IsFeature _ = Unit {0}

abbrev pub status_in : List Feature → Bool
status_in [] = false
status_in (asks_status ∷ fs) = true
status_in (_ ∷ fs) = status_in fs

abbrev pub status_v2_in : List Feature → Bool
status_v2_in [] = false
status_v2_in (asks_status_v2 ∷ fs) = true
status_v2_in (_ ∷ fs) = status_v2_in fs

abbrev pub side_band_in : List Feature → Bool
side_band_in [] = false
side_band_in (asks_side_band ∷ fs) = true
side_band_in (_ ∷ fs) = side_band_in fs

-- The first format that is named. Without one, and for an empty one, it is "sha1".
abbrev or_default : Bytes → Bytes
or_default [] = codes "sha1"
or_default (c ∷ v) = c ∷ v

abbrev pub format_in : List Feature → Bytes
format_in [] = codes "sha1"
format_in (says_format v ∷ fs) = or_default v
format_in (_ ∷ fs) = format_in fs

abbrev pub is_format : HashKind → Bytes → Bool
is_format sha1_hash_kind v = bytes_eq v (codes "sha1")
is_format sha256_hash_kind v = bytes_eq v (codes "sha256")

-- The server's record with what was asked for.
abbrev pub asking : Bool → Bool → Bool → ReceivePack → ReceivePack
asking status status_v2 side_band rp = record rp {
  report_status = status || rp.report_status;
  report_status_v2 = status_v2 || rp.report_status_v2;
  use_sideband = side_band || rp.use_sideband;
}

has_prefix-weaken : (w p q : Bytes) → has_prefix w p ≡ false → has_prefix w (p ++ q) ≡ false
unfolding has_prefix
has_prefix-weaken w [] q h = absurd (cc h)
has_prefix-weaken [] (x ∷ p) q h = refl
has_prefix-weaken (y ∷ w) (x ∷ p) q h = ground (arith, has_prefix-weaken w p q)

bytes_eq-no_prefix : (w p : Bytes) → has_prefix w p ≡ false → bytes_eq w p ≡ false
bytes_eq-no_prefix w p h = elim (Bool-cases (bytes_eq w p)) [
  | inr e ↦ e
  | inl e ↦
      let same : w ≡ p = (bytes_eq_iff w p).0 e in
      let whole : has_prefix p p ≡ true =
        ap (λ (t : Bytes). has_prefix t p) (sym (append-nil p)) ∙ has_prefix-append p [] in
      absurd (cc (h, same, whole))
]

any_feature-status :
    (fs : List Feature)
    → All IsFeature fs
    → any_feature (map word fs) (codes "report-status") ≡ status_in fs
unfolding any_feature
any_feature-status [] h = refl
any_feature-status (asks_status ∷ fs) h = refl
any_feature-status (asks_status_v2 ∷ fs) (_, h) = any_feature-status fs h
any_feature-status (asks_side_band ∷ fs) (_, h) = any_feature-status fs h
any_feature-status (says_format v ∷ fs) (_, h) = any_feature-status fs h
any_feature-status (says_other w ∷ fs) ((_, s, _, _), h) =
    rw
      (
        bytes_eq-no_prefix w (codes "report-status") s,
        has_prefix-weaken w (codes "report-status") (codes "=") s,
      )
      (any_feature-status fs h)

any_feature-status_v2 :
    (fs : List Feature)
    → All IsFeature fs
    → any_feature (map word fs) (codes "report-status-v2") ≡ status_v2_in fs
unfolding any_feature
any_feature-status_v2 [] h = refl
any_feature-status_v2 (asks_status ∷ fs) (_, h) = any_feature-status_v2 fs h
any_feature-status_v2 (asks_status_v2 ∷ fs) h = refl
any_feature-status_v2 (asks_side_band ∷ fs) (_, h) = any_feature-status_v2 fs h
any_feature-status_v2 (says_format v ∷ fs) (_, h) = any_feature-status_v2 fs h
any_feature-status_v2 (says_other w ∷ fs) ((_, s, _, _), h) =
    rw
      (
        bytes_eq-no_prefix w (codes "report-status-v2")
            (has_prefix-weaken w (codes "report-status") (codes "-v2") s),
        has_prefix-weaken w (codes "report-status") (codes "-v2=") s,
      )
      (any_feature-status_v2 fs h)

any_feature-side_band :
    (fs : List Feature)
    → All IsFeature fs
    → any_feature (map word fs) (codes "side-band-64k") ≡ side_band_in fs
unfolding any_feature
any_feature-side_band [] h = refl
any_feature-side_band (asks_status ∷ fs) (_, h) = any_feature-side_band fs h
any_feature-side_band (asks_status_v2 ∷ fs) (_, h) = any_feature-side_band fs h
any_feature-side_band (asks_side_band ∷ fs) h = refl
any_feature-side_band (says_format v ∷ fs) (_, h) = any_feature-side_band fs h
any_feature-side_band (says_other w ∷ fs) ((_, _, s, _), h) =
    rw
      (
        bytes_eq-no_prefix w (codes "side-band-64k") s,
        has_prefix-weaken w (codes "side-band-64k") (codes "=") s,
      )
      (any_feature-side_band fs h)

first_value-format :
    (fs : List Feature)
    → All IsFeature fs
    → or_sha1 (first_value (map word fs) (codes "object-format")) ≡ format_in fs
unfolding first_value or_sha1
first_value-format [] h = refl
first_value-format (asks_status ∷ fs) (_, h) = first_value-format fs h
first_value-format (asks_status_v2 ∷ fs) (_, h) = first_value-format fs h
first_value-format (asks_side_band ∷ fs) (_, h) = first_value-format fs h
first_value-format (says_format [] ∷ fs) h = refl
first_value-format (says_format (c ∷ v) ∷ fs) h = refl
first_value-format (says_other w ∷ fs) ((_, _, _, s), h) =
    rw (has_prefix-weaken w (codes "object-format") (codes "=") s) (first_value-format fs h)

word-Lacks : (f : Feature) → IsFeature f → Lacks b' ' (word f)
word-Lacks asks_status h = omega arith
word-Lacks asks_status_v2 h = omega arith
word-Lacks asks_side_band h = omega arith
word-Lacks (says_format v) h = All-append (λ x. x ≢ b' ') (codes "object-format=") v (omega arith) h
word-Lacks (says_other w) (h, _, _, _) = h

words-Lack : (fs : List Feature) → All IsFeature fs → All (Lacks b' ') (map word fs)
words-Lack [] h = tt
words-Lack (f ∷ fs) (hf, h) = (word-Lacks f hf, words-Lack fs h)

is_format-name : (k : HashKind) (v : Bytes) → bytes_eq v (hash_name k) ≡ is_format k v
unfolding hash_name
is_format-name sha1_hash_kind v = refl
is_format-name sha256_hash_kind v = refl

-- What the server makes of the text of features.
pub note_features-text :
    (k : HashKind) (rp : ReceivePack) (fs : List Feature)
    → All IsFeature fs
    → note_features k rp (features_text fs) ≡ (
        if is_format k (format_in fs)
        then ok (asking (status_in fs) (status_v2_in fs) (side_band_in fs) rp)
        else err unsupported_object_format)
unfolding note_features has_feature get_feature_value
note_features-text k rp [] h =
    unfold split join any_feature first_value or_sha1 in rw (is_format-name k (codes "sha1")) refl
note_features-text k rp (f ∷ fs) (hf, h) =
    rw
      (
        split-join (word f) (map word fs) b' ' (word-Lacks f hf) (words-Lack fs h),
        any_feature-status (f ∷ fs) (hf, h),
        any_feature-status_v2 (f ∷ fs) (hf, h),
        any_feature-side_band (f ∷ fs) (hf, h),
        first_value-format (f ∷ fs) (hf, h),
        is_format-name k (format_in (f ∷ fs)),
      )
      refl
