-- ===== src/ReceivePack/Request.antt =====
-- The request of a client, and what receive-pack reads of it.
use go_repo_dojo.Base.{
  Bool, Bool-cases, inl, inr, ◌&&◌, ◌||◌, unsupported_object_format, ℕ, zero, suc, ◌+◌, ◌≤◌, ◌<◌,
  ◌≡◌, ◌≢◌, refl, sym, ap, ◌∙◌, true, false, Option, none, some, List, [], ◌∷◌, ◌++◌, append-nil,
  append_assoc, arith, Bytes, length, drop, take-length_append, length-append, All, All-append, map,
  if◌then◌else◌, Result, ok, err, ◌>>=◌, after, after_loop, no_sideband, ltb,
}
use go_repo_dojo.Text.Laws.{Lacks, index_byte-append, index_byte-Lacks}
use go_repo_dojo.Hash.{HashKind, Hash, hex, hex_len}
use go_repo_dojo.Hash.Laws.{HasKind, hex-Lacks, hash_from_hex-hex}
use go_repo_dojo.Pkt.{
  pkt_line_header, pkt_len_size, write_pkt_line, write_pkt_flush, chomp, read_pkt_line,
}
use go_repo_dojo.Pkt.Lines.{read_pkt_line-write_pkt_line, read_pkt_line_ex_specials}
use go_repo_dojo.ReceivePack.Features.{
  Feature, features_text, IsFeature, status_in, status_v2_in, side_band_in, format_in, is_format,
  asking, note_features-text,
}
use go_repo_dojo.ReceivePack.{
  RefUpdate, ReceivePack, note_features, instead, space_at, parse_new, parse_ref_update,
  read_ref_update, read_update_lines, with_sideband, read_ref_updates,
}

-- What a client asks for in a line: both hashes and the name, and the features if it sends any.
pub record Asked : Type 0 where
  pub old_oid : Hash
  pub new_oid : Hash
  pub ref_name : Bytes
  pub features : Option (List Feature)

abbrev sent : Option (List Feature) → Option Bytes
sent none = none
sent (some fs) = some (features_text fs)

abbrev AreFeatures : Option (List Feature) → Type 0
AreFeatures none = Unit {0}
AreFeatures (some fs) = All IsFeature fs

abbrev command_text : Asked → Bytes
command_text a = hex a.old_oid ++ (b' ' ∷ (hex a.new_oid ++ (b' ' ∷ a.ref_name)))

abbrev with_features : Bytes → Option Bytes → Bytes
with_features text none = text
with_features text (some f) = text ++ (0 ∷ f)

abbrev asked_line : Asked → Bytes
asked_line a = with_features (command_text a) (sent a.features)

-- The lines and the flush packet behind them.
abbrev pub request : List Asked → Bytes
request [] = write_pkt_flush []
request (a ∷ qs) = write_pkt_line [] (asked_line a) ++ request qs

-- Hashes of the kind, no NUL in the name, a line that fits and ends in no newline, and features.
abbrev pub IsAsked : HashKind → Asked → Type 0
IsAsked k a =
    HasKind k a.old_oid
    × HasKind k a.new_oid
    × Lacks 0 a.ref_name
    × (length (asked_line a) + 4 < 65536)
    × (chomp (asked_line a) ≡ asked_line a)
    × AreFeatures a.features

abbrev pub wanted : Asked → RefUpdate
wanted a = record {
  error_message = [];
  skip_update = false;
  old_oid = a.old_oid;
  new_oid = a.new_oid;
  ref_name = a.ref_name;
}

-- The server's record after the features of every line.
abbrev note_maybe : HashKind → ReceivePack → Option Bytes → Result ReceivePack
note_maybe k rp none = ok rp
note_maybe k rp (some f) = note_features k rp f

abbrev noted : HashKind → ReceivePack → List Asked → Result ReceivePack
noted k rp [] = ok rp
noted k rp (a ∷ qs) = note_maybe k rp (sent a.features) >>= λ rp'. noted k rp' qs

-- Fields of a text that is laid out as the hashes' names, with a space behind each.
space_at-append : (xs r : Bytes) (n : ℕ) → n ≡ length xs → space_at (xs ++ (b' ' ∷ r)) n ≡ true
unfolding space_at
space_at-append [] r zero e = refl
space_at-append [] r (suc n) e = absurd (omega arith)
space_at-append (x ∷ xs) r zero e = absurd (omega arith)
space_at-append (x ∷ xs) r (suc n) e = space_at-append xs r n (omega arith)

drop-next : (xs r : Bytes) (c n : ℕ) → n ≡ length xs + 1 → drop n (xs ++ (c ∷ r)) ≡ r
drop-next [] r c zero e = absurd (omega arith)
drop-next [] r c (suc zero) e = refl
drop-next [] r c (suc (suc n)) e = absurd (omega arith)
drop-next (x ∷ xs) r c zero e = absurd (omega arith)
drop-next (x ∷ xs) r c (suc n) e = drop-next xs r c n (omega arith)

parse_new-text :
    (k : HashKind) (a : Asked)
    → IsAsked k a
    → parse_new k a.old_oid (command_text a) ≡ ok (wanted a)
unfolding parse_new instead
parse_new-text k a (ho, hn, _, _, _, _) =
    let (lo, _) = hash_from_hex-hex k a.old_oid ho in
    let (ln, read) = hash_from_hex-hex k a.new_oid hn in
    let behind : drop (hex_len k + 1) (command_text a) ≡ hex a.new_oid ++ (b' ' ∷ a.ref_name) =
      drop-next (hex a.old_oid) _ b' ' (hex_len k + 1) (omega arith) in
    let split_at : command_text a
        ≡ (hex a.old_oid ++ (b' ' ∷ hex a.new_oid)) ++ (b' ' ∷ a.ref_name) =
      sym (append_assoc (hex a.old_oid) (b' ' ∷ hex a.new_oid) _) in
    let n : length (hex a.old_oid ++ (b' ' ∷ hex a.new_oid)) ≡ hex_len k + 1 + hex_len k =
      omega (arith, length-append (hex a.old_oid) (b' ' ∷ hex a.new_oid)) in
    let space : space_at (command_text a) (hex_len k + 1 + hex_len k) ≡ true =
      ap (λ t. space_at t (hex_len k + 1 + hex_len k)) split_at
      ∙ space_at-append _ a.ref_name _ (sym n) in
    let name : drop (hex_len k + 1 + hex_len k + 1) (command_text a) ≡ a.ref_name =
      ap (drop (hex_len k + 1 + hex_len k + 1)) split_at
      ∙ drop-next (hex a.old_oid ++ (b' ' ∷ hex a.new_oid)) a.ref_name b' '
          (hex_len k + 1 + hex_len k + 1) (omega arith) in
    rw (behind, take-length_append (hex a.new_oid) (b' ' ∷ a.ref_name) (hex_len k) (sym ln), read)
      (rw (space, name) refl)

length-command_text :
    (a : Asked)
    → length (command_text a)
      ≡ length (hex a.old_oid) + (1 + (length (hex a.new_oid) + (1 + length a.ref_name)))
length-command_text a = omega (
  arith,
  length-append (hex a.old_oid) (b' ' ∷ (hex a.new_oid ++ (b' ' ∷ a.ref_name))),
  length-append (hex a.new_oid) (b' ' ∷ a.ref_name),
)

not_ltb : (m n : ℕ) → n ≤ m → ltb m n ≡ false
not_ltb m n h = ground arith

long_line :
    (k : HashKind) (a : Asked)
    → length (hex a.old_oid) ≡ hex_len k
    → length (hex a.new_oid) ≡ hex_len k
    → ltb (length (command_text a)) (hex_len k + 1 + hex_len k + 1) ≡ false
long_line k a lo ln = not_ltb _ _ (omega (arith, length-command_text a))

parse_ref_update-text :
    (k : HashKind) (a : Asked) → IsAsked k a → parse_ref_update k (command_text a) ≡ ok (wanted a)
unfolding parse_ref_update instead
parse_ref_update-text k a h =
    let (ho, hn, _, _, _, _) = h in
    let (lo, read) = hash_from_hex-hex k a.old_oid ho in
    let (ln, _) = hash_from_hex-hex k a.new_oid hn in
    let long : ltb (length (command_text a)) (hex_len k + 1 + hex_len k + 1) ≡ false =
      long_line k a lo ln in
    rw
      (
        long,
        take-length_append (hex a.old_oid) (b' ' ∷ (hex a.new_oid ++ (b' ' ∷ a.ref_name)))
            (hex_len k) (sym lo),
        read,
        space_at-append (hex a.old_oid) (hex a.new_oid ++ (b' ' ∷ a.ref_name)) (hex_len k) (sym lo),
      )
      (parse_new-text k a h)

command_text-Lacks : (k : HashKind) (a : Asked) → IsAsked k a → Lacks 0 (command_text a)
command_text-Lacks k a (ho, hn, hr, _, _, _) =
    All-append (λ x. x ≢ 0) (hex a.old_oid) _ (hex-Lacks 0 (omega arith) k a.old_oid ho)
      (
        omega arith,
        All-append (λ x. x ≢ 0) (hex a.new_oid) _ (hex-Lacks 0 (omega arith) k a.new_oid hn)
            (omega arith, hr),
      )

read_ref_update-line :
    (k : HashKind) (rp : ReceivePack) (a : Asked)
    → IsAsked k a
    → read_ref_update k rp (asked_line a)
      ≡ (note_maybe k rp (sent a.features) >>= λ rp'. ok (wanted a, rp'))
unfolding read_ref_update
read_ref_update-line k rp a h = go (sent a.features)
  where
    go :
        (f : Option Bytes)
        → read_ref_update k rp (with_features (command_text a) f)
          ≡ (note_maybe k rp f >>= λ rp'. ok (wanted a, rp'))
    go none =
        rw (index_byte-Lacks (command_text a) 0 (command_text-Lacks k a h), read_ref_update)
          (rw (parse_ref_update-text k a h))
    go (some f) =
        rw
          (
            index_byte-append (command_text a) f 0 (command_text-Lacks k a h),
            read_ref_update,
            drop-next (command_text a) f 0 (length (command_text a) + 1) refl,
            take-length_append (command_text a) (0 ∷ f) (length (command_text a)) refl,
          )
          (rw (parse_ref_update-text k a h))

read_flush : (rest : Bytes) → read_pkt_line (write_pkt_flush [] ++ rest) ≡ ok (none, rest)
read_flush rest = let (_, _, _, flush, _, _) = read_pkt_line_ex_specials rest in flush

read_line :
    (k : HashKind) (a : Asked) (more rest : Bytes)
    → IsAsked k a
    → read_pkt_line ((write_pkt_line [] (asked_line a) ++ more) ++ rest)
      ≡ ok (some (asked_line a), more ++ rest)
read_line k a more rest (_, _, _, fits, whole, _) =
    rw (append_assoc (write_pkt_line [] (asked_line a)) more rest)
      (rw whole at ((read_pkt_line-write_pkt_line (asked_line a) (more ++ rest) fits).0))

update_lines-request :
    (k : HashKind) (rp : ReceivePack) (us : List RefUpdate) (qs : List Asked) (rest : Bytes)
    (fuel : ℕ)
    → All (IsAsked k) qs
    → length qs < fuel
    → read_update_lines k fuel rp us (request qs ++ rest)
      ≡ some (noted k rp qs >>= λ rp'. ok (us ++ map wanted qs, (rp', rest)))
unfolding read_update_lines
update_lines-request k rp us qs rest zero h lt = absurd (omega arith)
update_lines-request k rp us [] rest (suc fuel) h lt =
    rw (read_flush rest, read_update_lines, append-nil us) refl
update_lines-request k rp us (a ∷ qs) rest (suc fuel) (ha, hs) lt =
    rw (read_line k a (request qs) rest ha, read_update_lines)
      (rw (read_ref_update-line k rp a ha) (
        go (note_maybe k rp (sent a.features)) (λ rp'.
          update_lines-request k rp' (us ++ (wanted a ∷ [])) qs rest fuel hs (omega arith))))
  where
    go :
        (r : Result ReceivePack)
        → ((rp' : ReceivePack)
            → read_update_lines k fuel rp' (us ++ (wanted a ∷ [])) (request qs ++ rest)
              ≡ some (
                  noted k rp' qs >>= λ rp2.
                  ok ((us ++ (wanted a ∷ [])) ++ map wanted qs, (rp2, rest))))
        → after
            (r >>= λ rp'. ok (wanted a, rp'))
            (λ (u, rp'). read_update_lines k fuel rp' (us ++ (u ∷ [])) (request qs ++ rest))
          ≡ some
              ((r >>= λ rp'. noted k rp' qs) >>= λ rp2. ok (us ++ map wanted (a ∷ qs), (rp2, rest)))
    go (err e) ih = refl
    go (ok rp') ih = rw (sym (append_assoc us (wanted a ∷ []) (map wanted qs))) (ih rp')

length-write_pkt_line : (d : Bytes) → length d ≤ length (write_pkt_line [] d)
unfolding write_pkt_line
length-write_pkt_line d = omega (arith, length-append (pkt_line_header (length d + pkt_len_size)) d)

length-with_features : (t : Bytes) (f : Option Bytes) → length t ≤ length (with_features t f)
length-with_features t none = omega arith
length-with_features t (some f) = omega (arith, length-append t (0 ∷ f))

-- The reader holds at least as many bytes as there are lines.
length-request : (qs : List Asked) (rest : Bytes) → length qs ≤ length (request qs ++ rest)
length-request [] rest = omega arith
length-request (a ∷ qs) rest =
    rw (append_assoc (write_pkt_line [] (asked_line a)) (request qs) rest) (
      omega (
        arith,
        length-append (write_pkt_line [] (asked_line a)) (request qs ++ rest),
        length-write_pkt_line (asked_line a),
        length-with_features (command_text a) (sent a.features),
        length-command_text a,
        length-request qs rest,
      ))

read_ref_updates-noted :
    (k : HashKind) (rp : ReceivePack) (qs : List Asked) (rest : Bytes)
    → All (IsAsked k) qs
    → read_ref_updates k rp (request qs ++ rest)
      ≡ some (
          noted k rp qs >>= λ rp'.
          if rp'.use_sideband then ok (map wanted qs, (rp', rest)) else err no_sideband)
unfolding read_ref_updates with_sideband
read_ref_updates-noted k rp qs rest h =
    rw
      (update_lines-request k rp [] qs rest (suc (length (request qs ++ rest))) h
        (omega (arith, length-request qs rest)))
      (go (noted k rp qs))
  where
    go :
        (r : Result ReceivePack)
        → after_loop
            (some (r >>= λ rp'. ok (map wanted qs, (rp', rest))))
            (λ x. some (with_sideband x))
          ≡ some (
              r >>= λ rp'.
              if rp'.use_sideband then ok (map wanted qs, (rp', rest)) else err no_sideband)
    go (err e) = refl
    go (ok rp') = refl

-- What the features of all lines say.
abbrev asks_maybe : (List Feature → Bool) → Option (List Feature) → Bool → Bool
asks_maybe asks none rest = rest
asks_maybe asks (some fs) rest = asks fs || rest

abbrev pub any_asks : (List Feature → Bool) → List Asked → Bool
any_asks asks [] = false
any_asks asks (a ∷ qs) = asks_maybe asks a.features (any_asks asks qs)

-- No line names another object format than the repository's.
abbrev fits_maybe : HashKind → Option (List Feature) → Bool → Bool
fits_maybe k none rest = rest
fits_maybe k (some fs) rest = is_format k (format_in fs) && rest

abbrev pub all_fit : HashKind → List Asked → Bool
all_fit k [] = true
all_fit k (a ∷ qs) = fits_maybe k a.features (all_fit k qs)

abbrev pub asking_all : List Asked → ReceivePack → ReceivePack
asking_all qs = asking (any_asks status_in qs) (any_asks status_v2_in qs) (any_asks side_band_in qs)

or_swap : (a b c : Bool) → b || (a || c) ≡ (a || b) || c
or_swap true true c = refl
or_swap true false c = refl
or_swap false true c = refl
or_swap false false c = refl

asking-asking :
    (s t v w b c : Bool) (rp : ReceivePack)
    → asking t w c (asking s v b rp) ≡ asking (s || t) (v || w) (b || c) rp
asking-asking s t v w b c rp =
    rw (or_swap s t rp.report_status, or_swap v w rp.report_status_v2, or_swap b c rp.use_sideband)
      refl

noted_lem :
    (k : HashKind) (rp : ReceivePack) (qs : List Asked)
    → All (IsAsked k) qs
    → noted k rp qs
      ≡ (if all_fit k qs then ok (asking_all qs rp) else err unsupported_object_format)
noted_lem k rp [] h = refl
noted_lem k rp (a ∷ qs) ((_, _, _, _, _, hf), h) = go a.features hf (λ rp'. noted_lem k rp' qs h)
  where
    go :
        (f : Option (List Feature))
        → AreFeatures f
        → ((rp' : ReceivePack)
            → noted k rp' qs
              ≡ (if all_fit k qs then ok (asking_all qs rp') else err unsupported_object_format))
        → (note_maybe k rp (sent f) >>= λ rp'. noted k rp' qs) ≡ (
            if fits_maybe k f (all_fit k qs)
            then ok (
                asking
                  (asks_maybe status_in f (any_asks status_in qs))
                  (asks_maybe status_v2_in f (any_asks status_v2_in qs))
                  (asks_maybe side_band_in f (any_asks side_band_in qs))
                  rp)
            else err unsupported_object_format)
    go none hf ih = ih rp
    go (some fs) hf ih =
        rw (note_features-text k rp fs hf) (elim (Bool-cases (is_format k (format_in fs))) [
          | inr t ↦ rw t refl
          | inl t ↦ rw t (
              ih (asking (status_in fs) (status_v2_in fs) (side_band_in fs) rp)
              ∙ ap
                  (λ (r : ReceivePack).
                    if all_fit k qs then ok r else err unsupported_object_format)
                  (asking-asking (status_in fs) (any_asks status_in qs) (status_v2_in fs)
                    (any_asks status_v2_in qs) (side_band_in fs) (any_asks side_band_in qs) rp))
        ])

-- What comes back if all formats fit.
abbrev answer : List Asked → Bytes → ReceivePack → Result (List RefUpdate × (ReceivePack × Bytes))
answer qs rest rp = if rp.use_sideband then ok (map wanted qs, (rp, rest)) else err no_sideband

-- A request that a client writes, flush packet and all, is read to its end, whatever follows it. If a
-- line's features name another object format than the repository's, or name none while the repository
-- is not one of SHA-1, it fails for that. Else it fails if no line asks for the side band and the server
-- did not use it before. Else the updates come back in their order, with the server's record as it was
-- but for the reports and the side band that some line asks for.
pub read_ref_updates-request :
    (k : HashKind) (rp : ReceivePack) (qs : List Asked) (rest : Bytes)
    → All (IsAsked k) qs
    → read_ref_updates k rp (request qs ++ rest)
      ≡ some (
          if all_fit k qs
          then (if any_asks side_band_in qs || rp.use_sideband
              then ok (map wanted qs, (asking_all qs rp, rest))
              else err no_sideband)
          else err unsupported_object_format)
read_ref_updates-request k rp qs rest h =
    read_ref_updates-noted k rp qs rest h ∙ rw (noted_lem k rp qs h) (go (all_fit k qs))
  where
    go :
        (b : Bool)
        → some (
            (if b then ok (asking_all qs rp) else err unsupported_object_format) >>= answer qs rest)
          ≡ some (
              if b
              then (if any_asks side_band_in qs || rp.use_sideband
                  then ok (map wanted qs, (asking_all qs rp, rest))
                  else err no_sideband)
              else err unsupported_object_format)
    go true = refl
    go false = refl
