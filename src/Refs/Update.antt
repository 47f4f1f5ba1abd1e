-- ===== src/Refs/Update.antt =====
-- Writing a ref and reading it back, through symbolic refs as well.
use go_repo_dojo.Base.{
  ℕ, zero, suc, ◌/◌, ◌%◌, ◌<◌, ◌≡◌, ◌≢◌, refl, ap, ◌∙◌, sym, inl, inr, none, some, Option, List, [],
  ◌∷◌, ◌++◌, false, ◌⊎◌, arith, Bytes, codes, if◌then◌else◌, Bool-cases, bytes_eq, bytes_eq_iff,
  bytes_eq_refl, All, All-append, Result, ok, err, map_get, map_get-map_set, map_get-map_delete,
  stuck, ref_not_found,
}
use go_repo_dojo.Hex.{hex_char, encode_to_string}
use go_repo_dojo.Hex.RoundTrip.{IsByte}
use go_repo_dojo.Hash.{HashKind, Hash, hex, bytes}
use go_repo_dojo.Hash.Laws.{HasKind, HasKind-bytes}
use go_repo_dojo.Text.{split, trim_right}
use go_repo_dojo.Ref.{
  Ref, to_path, RefOrOid, ref_value, oid_value, ref_or_oid_from_db, ref_start_str, db_content,
}
use go_repo_dojo.Ref.Paths.{IsNamed}
use go_repo_dojo.Ref.Content.{IsStorable, ref_or_oid_from_db-db_content}
use go_repo_dojo.Refs.{
  Repo, newline_or_return, read_ref, read_loose, read_packed, packed_lookup, packed_line, write_ref,
  write_ref_recur, update_head, read_head_recur_maybe, read_ref_recur, after_read, not_found,
}

-- Nothing that the trimming of line ends would touch.
abbrev pub NoLineEnd : Bytes → Type 0
NoLineEnd = All (λ c. newline_or_return c ≡ false)

trim_right_line : (s : Bytes) → NoLineEnd s → trim_right newline_or_return (s ++ (b'\n' ∷ [])) ≡ s
unfolding trim_right
trim_right_line [] h = refl
trim_right_line (c ∷ s) (hc, hs) = rw (trim_right_line s hs) (onto s)
  where
    onto :
        (t : Bytes)
        → (elim t as (λ _. Bytes) [
          | [] ↦ if newline_or_return c then [] else c ∷ []
          | d ∷ u ↦ c ∷ d ∷ u
        ])
          ≡ c ∷ t
    onto [] = rw hc
    onto (d ∷ u) = refl

hex_char_line : (d : ℕ) → d < 16 → newline_or_return (hex_char d) ≡ false
unfolding hex_char
hex_char_line d h = ground arith

encode_to_string-NoLineEnd : (bs : Bytes) → All IsByte bs → NoLineEnd (encode_to_string bs)
unfolding encode_to_string
encode_to_string-NoLineEnd [] h = tt
encode_to_string-NoLineEnd (b ∷ bs) (hb, hbs) = (
  hex_char_line (b / 16) (omega arith),
  (hex_char_line (b % 16) (omega arith), encode_to_string-NoLineEnd bs hbs),
)

-- A value that a file can hold: storable, and a symbolic ref's path has no line end in it.
abbrev pub IsWritable : HashKind → RefOrOid → Type 0
IsWritable k (ref_value r) = IsNamed r × NoLineEnd (to_path r)
IsWritable k (oid_value h) = HasKind k h

IsWritable-IsStorable : (k : HashKind) (v : RefOrOid) → IsWritable k v → IsStorable k v
IsWritable-IsStorable k (ref_value r) h = h.0
IsWritable-IsStorable k (oid_value o) h = h

db_content-NoLineEnd : (k : HashKind) (v : RefOrOid) → IsWritable k v → NoLineEnd (db_content v)
unfolding db_content hex
db_content-NoLineEnd k (ref_value r) h =
    All-append (λ c. newline_or_return c ≡ false) ref_start_str (to_path r)
      (refl, (refl, (refl, (refl, (refl, tt))))) h.1
db_content-NoLineEnd k (oid_value o) h = encode_to_string-NoLineEnd (bytes o) (HasKind-bytes k o h)

read_written :
    (repo : Repo) (v : RefOrOid) (path : Bytes)
    → IsWritable repo.hash v
    → read_loose (some (db_content v ++ (b'\n' ∷ []))) repo path ≡ ok (some v)
unfolding read_loose
read_written repo v path h =
    rw (trim_right_line (db_content v) (db_content-NoLineEnd repo.hash v h))
      (ap ok (ref_or_oid_from_db-db_content repo.hash v (IsWritable-IsStorable repo.hash v h)))

-- A hash of the repository's kind, or a symbolic ref to a named ref with no line end in its path, is
-- read from the path that it was written to.
pub read_ref-write_ref :
    (repo : Repo) (path : Bytes) (v : RefOrOid)
    → IsWritable repo.hash v
    → read_ref (write_ref repo path v) path ≡ ok (some v)
unfolding write_ref read_ref
read_ref-write_ref repo path v h =
    rw (map_get-map_set path path, bytes_eq_refl) (read_written (write_ref repo path v) v path h)

-- No file of the repository is somebody's lock file.
abbrev pub NoLocks : Repo → Type 0
NoLocks repo = (path : Bytes) → map_get (path ++ codes ".lock") repo.files ≡ none

-- A symbolic ref is always a file of its own: packed-refs hold hashes only.
packed-oid :
    (lines : List Bytes) (path : Bytes) (k : HashKind) (r : Ref)
    → packed_lookup lines path k ≢ ok (some (ref_value r))
unfolding packed_lookup
packed-oid [] path k r = λ e. cc
packed-oid (line ∷ lines) path k r = go (packed_line line path k) (packed-oid lines path k r)
  where
    go :
        (l : Option (Result Hash))
        → packed_lookup lines path k ≢ ok (some (ref_value r))
        → elim l as (λ _. Result (Option RefOrOid)) [
          | none ↦ packed_lookup lines path k
          | some (ok h) ↦ ok (some (oid_value h))
          | some (err e) ↦ err e
        ]
          ≢ ok (some (ref_value r))
    go none ih = ih
    go (some (ok h)) ih = λ e. cc
    go (some (err x)) ih = λ e. cc

symbolic_file :
    (repo : Repo) (path : Bytes) (r : Ref)
    → read_ref repo path ≡ ok (some (ref_value r))
    → (text : Bytes) × (map_get path repo.files ≡ some text)
      × (ok (ref_or_oid_from_db (trim_right newline_or_return text) repo.hash)
          ≡ ok (some (ref_value r)))
unfolding read_ref
symbolic_file repo path r e = go (map_get path repo.files) refl
  where
    go :
        (o : Option Bytes)
        → map_get path repo.files ≡ o
        → (text : Bytes) × (map_get path repo.files ≡ some text)
          × (ok (ref_or_oid_from_db (trim_right newline_or_return text) repo.hash)
              ≡ ok (some (ref_value r)))
    go (some text) f = (text, f, ap (λ (t : Option Bytes). read_loose t repo path) (sym f) ∙ e)
    go none f = absurd (
        packed_not (map_get (codes "packed-refs") repo.files)
          (ap (λ (t : Option Bytes). read_loose t repo path) (sym f) ∙ e))
      where
        packed_not : (t : Option Bytes) → read_packed t path repo.hash ≢ ok (some (ref_value r))
        packed_not none = λ x. cc
        packed_not (some t) = packed-oid (split t b'\n') path repo.hash r

-- A symbolic ref elsewhere is read as before when a path that is none is written.
read_ref-frame :
    (repo : Repo) (p q : Bytes) (r : Ref) (v : RefOrOid)
    → NoLocks repo
    → read_ref repo p ≡ ok (some (ref_value r))
    → ((r' : Ref) → read_ref repo q ≢ ok (some (ref_value r')))
    → read_ref (write_ref repo q v) p ≡ ok (some (ref_value r))
unfolding write_ref read_ref
read_ref-frame repo p q r v locks e ne =
    let (text, file, same) = symbolic_file repo p r e in
    rw
      (
        map_get-map_set q p,
        other,
        map_get-map_delete (q ++ codes ".lock") p,
        unlocked text file,
        file,
      )
      same
  where
    other : bytes_eq q p ≡ false
    other = elim (Bool-cases (bytes_eq q p)) [
      | inl y ↦ absurd (ne r (ap (read_ref repo) ((bytes_eq_iff q p).0 y) ∙ e))
      | inr n ↦ n
    ]

    unlocked :
        (text : Bytes) → map_get p repo.files ≡ some text → bytes_eq (q ++ codes ".lock") p ≡ false
    unlocked text file = elim (Bool-cases (bytes_eq (q ++ codes ".lock") p)) [
      | inl y ↦ cc (
        locks q,
        file,
        ap (λ (t : Bytes). map_get t repo.files) ((bytes_eq_iff (q ++ codes ".lock") p).0 y),
      )
      | inr n ↦ n
    ]

-- Following at most `n` symbolic refs from `p` ends at `q`, which holds none.
pub data Ends (repo : Repo) (q : Bytes) : ℕ → Bytes → Type 0 where
  stop :
      {n : ℕ} {p : Bytes}
      → p ≡ q
      → ((r : Ref) → read_ref repo q ≢ ok (some (ref_value r)))
      → Ends repo q n p
  hop :
      {n : ℕ} {p : Bytes} (r : Ref)
      → read_ref repo p ≡ ok (some (ref_value r))
      → Ends repo q n (to_path r)
      → Ends repo q (suc n) p

Ends-not_symbolic :
    (repo : Repo) (q : Bytes) {n : ℕ} {p : Bytes}
    → Ends repo q n p
    → (r : Ref) → read_ref repo q ≢ ok (some (ref_value r))
Ends-not_symbolic repo q (stop e ne) = ne
Ends-not_symbolic repo q (hop r e chain) = Ends-not_symbolic repo q chain

resolved :
    (n : ℕ) (repo : Repo) (oid : Hash) → read_ref_recur n repo (oid_value oid) ≡ ok (some oid)
unfolding read_ref_recur
resolved zero repo oid = refl
resolved (suc n) repo oid = refl

-- After a write at the end of a chain, the chain leads to what was written.
Ends-read :
    (repo : Repo) (q : Bytes) (oid : Hash) {n : ℕ} {p : Bytes}
    → HasKind repo.hash oid
    → NoLocks repo
    → Ends repo q n p
    → after_read
        (read_ref (write_ref repo q (oid_value oid)) p)
        (read_ref_recur n (write_ref repo q (oid_value oid)))
      ≡ ok (some oid)
unfolding after_read read_ref_recur
Ends-read repo q oid h locks (stop {n} e ne) =
    rw (e, read_ref-write_ref repo q (oid_value oid) h)
      (resolved n (write_ref repo q (oid_value oid)) oid)
Ends-read repo q oid h locks (hop r e chain) =
    rw (read_ref-frame repo _ q r (oid_value oid) locks e (Ends-not_symbolic repo q chain))
      (Ends-read repo q oid h locks chain)

-- The end of a chain can be written: it holds no symbolic ref, and nothing but its absence, if that,
-- keeps it from being read.
abbrev pub IsEnd : Repo → Bytes → Type 0
IsEnd repo q =
    (read_ref repo q ≡ err ref_not_found)
    ⊎ (read_ref repo q ≡ ok none)
    ⊎ ((h : Hash) × (read_ref repo q ≡ ok (some (oid_value h))))

Ends-write :
    (repo : Repo) (q : Bytes) (oid : Hash) {n : ℕ} {p : Bytes}
    → IsEnd repo q
    → Ends repo q n p
    → write_ref_recur (suc n) repo p oid ≡ ok (write_ref repo q (oid_value oid))
unfolding write_ref_recur not_found
Ends-write repo q oid (inl e) (stop same ne) = rw (same, e) refl
Ends-write repo q oid (inr (inl e)) (stop same ne) = rw (same, e) refl
Ends-write repo q oid (inr (inr (h, e))) (stop same ne) = rw (same, e) refl
Ends-write repo q oid end (hop r e chain) = rw e (Ends-write repo q oid end chain)

-- If following at most `n` symbolic refs from HEAD ends at `q`, then `updateHead` succeeds, writes the
-- hash to `q` alone, and HEAD resolves to the hash afterwards, whether `q` held a hash, something
-- unreadable, or nothing yet. The hash is of the repository's kind, and no file has the name of another
-- path's lock.
pub read_head_recur_maybe-update_head :
    (repo : Repo) (q : Bytes) (oid : Hash) (n : ℕ)
    → HasKind repo.hash oid
    → NoLocks repo
    → IsEnd repo q
    → Ends repo q n (codes "HEAD")
    → (update_head (suc n) repo oid ≡ ok (write_ref repo q (oid_value oid)))
      × (read_head_recur_maybe n (write_ref repo q (oid_value oid)) ≡ ok (some oid))
unfolding update_head read_head_recur_maybe
read_head_recur_maybe-update_head repo q oid n h locks end chain =
    (Ends-write repo q oid end chain, Ends-read repo q oid h locks chain)

-- Symbolic refs that lead only to one another are never resolved, with any bound: the recursion of
-- `readRefRecur` has no end there.
pub read_ref_recur_cycle :
    (repo : Repo) (P : Ref → Type 0)
    → ((r : Ref) → P r → (r' : Ref) × P r' × (read_ref repo (to_path r) ≡ ok (some (ref_value r'))))
    → (fuel : ℕ) (r : Ref) → P r
    → read_ref_recur fuel repo (ref_value r) ≡ err stuck
unfolding read_ref_recur
read_ref_recur_cycle repo P next zero r h = refl
read_ref_recur_cycle repo P next (suc fuel) r h =
    let (r', h', e) = next r h in rw e (read_ref_recur_cycle repo P next fuel r' h')
