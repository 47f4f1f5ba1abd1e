-- ===== src/Hash/Laws.antt =====
-- Names of hashes: the hexadecimal text stands for the hash.
use go_repo_dojo.Base.{
  ◌≤◌, ◌*◌, ◌++◌, take, replicate, subst, ◌<◌, ℕ, zero, suc, ◌≡◌, refl, ap, ◌∙◌, sym, ◌↔◌, true,
  some, [], ◌∷◌, arith, Bytes, bytes_eq_iff, length, All, ok, >>=-eq-ok,
}
use go_repo_dojo.Hex.{encode_to_string, decode_string}
use go_repo_dojo.Hex.RoundTrip.{
  IsByte, decode_string-encode_to_string, length-encode_to_string, decode_string_shape,
  encode_to_string-Lacks,
}
use go_repo_dojo.Text.Laws.{Lacks}
use go_repo_dojo.Hash.{
  HashKind, sha1_hash_kind, sha256_hash_kind, byte_len, hex_len, Hash, sha1_hash, sha256_hash,
  bytes, hex, copy_into, hash_from_bytes, hash_from_hex, hash_equal,
}

-- A value of the array type that `kind` names.
abbrev pub HasKind : HashKind → Hash → Type 0
HasKind sha1_hash_kind (sha1_hash o) = (length o ≡ 20) × All IsByte o
HasKind sha256_hash_kind (sha256_hash o) = (length o ≡ 32) × All IsByte o
HasKind _ _ = ⊥

length-copy_into : (n : ℕ) (b : Bytes) → length (copy_into n b) ≡ n
unfolding copy_into
length-copy_into zero b = refl
length-copy_into (suc n) [] = ap suc (length-copy_into n [])
length-copy_into (suc n) (x ∷ b) = ap suc (length-copy_into n b)

copy_into_whole : (n : ℕ) (b : Bytes) → length b ≡ n → copy_into n b ≡ b
unfolding copy_into
copy_into_whole zero [] h = refl
copy_into_whole zero (x ∷ b) h = absurd (omega arith)
copy_into_whole (suc n) [] h = absurd (omega arith)
copy_into_whole (suc n) (x ∷ b) h = ap (◌∷◌ x) (copy_into_whole n b (omega arith))

All-copy_into : (n : ℕ) (b : Bytes) → All IsByte b → All IsByte (copy_into n b)
unfolding copy_into
All-copy_into zero b h = tt
All-copy_into (suc n) [] h = (omega arith, All-copy_into n [] tt)
All-copy_into (suc n) (x ∷ b) (hx, hb) = (hx, All-copy_into n b hb)

pub hash_from_bytes-HasKind :
    (k : HashKind) (b : Bytes) → All IsByte b → HasKind k (hash_from_bytes k b)
unfolding hash_from_bytes
hash_from_bytes-HasKind sha1_hash_kind b h = (length-copy_into 20 b, All-copy_into 20 b h)
hash_from_bytes-HasKind sha256_hash_kind b h = (length-copy_into 32 b, All-copy_into 32 b h)

pub hash_from_bytes-bytes :
    (k : HashKind) (h : Hash) → HasKind k h → hash_from_bytes k (bytes h) ≡ h
unfolding hash_from_bytes bytes
hash_from_bytes-bytes sha1_hash_kind (sha1_hash o) (n, _) = ap sha1_hash (copy_into_whole 20 o n)
hash_from_bytes-bytes sha1_hash_kind (sha256_hash o) h = absurd h
hash_from_bytes-bytes sha256_hash_kind (sha1_hash o) h = absurd h
hash_from_bytes-bytes sha256_hash_kind (sha256_hash o) (n, _) =
    ap sha256_hash (copy_into_whole 32 o n)

pub HasKind-length : (k : HashKind) (h : Hash) → HasKind k h → length (bytes h) ≡ byte_len k
unfolding bytes byte_len
HasKind-length sha1_hash_kind (sha1_hash o) (n, _) = n
HasKind-length sha1_hash_kind (sha256_hash o) h = absurd h
HasKind-length sha256_hash_kind (sha1_hash o) h = absurd h
HasKind-length sha256_hash_kind (sha256_hash o) (n, _) = n

pub HasKind-bytes : (k : HashKind) (h : Hash) → HasKind k h → All IsByte (bytes h)
unfolding bytes
HasKind-bytes sha1_hash_kind (sha1_hash o) (_, b) = b
HasKind-bytes sha1_hash_kind (sha256_hash o) h = absurd h
HasKind-bytes sha256_hash_kind (sha1_hash o) h = absurd h
HasKind-bytes sha256_hash_kind (sha256_hash o) (_, b) = b

pub hex-Lacks : (c : ℕ) → c < b'0' → (k : HashKind) (o : Hash) → HasKind k o → Lacks c (hex o)
unfolding hex
hex-Lacks c hc k o h = encode_to_string-Lacks c (bytes o) hc (HasKind-bytes k o h)

-- The hexadecimal name of a hash has the length of its kind, and `HashFromHex` reads it back.
pub hash_from_hex-hex :
    (k : HashKind) (h : Hash)
    → HasKind k h
    → (length (hex h) ≡ hex_len k) × (hash_from_hex k (hex h) ≡ ok h)
unfolding hash_from_hex hex hex_len
hash_from_hex-hex k h v = (
  omega (arith, length-encode_to_string (bytes h), HasKind-length k h v),
  rw (decode_string-encode_to_string (bytes h) (HasKind-bytes k h v))
      (ap ok (hash_from_bytes-bytes k h v)),
)

copy_into-take : (n m : ℕ) (b : Bytes) → n ≤ m → copy_into n b ≡ take n (b ++ replicate m 0)
unfolding copy_into
copy_into-take zero m b h = refl
copy_into-take (suc n) zero b h = absurd (omega arith)
copy_into-take (suc n) (suc m) [] h = ap (◌∷◌ 0) (copy_into-take n m [] (omega arith))
copy_into-take (suc n) (suc m) (x ∷ b) h = ap (◌∷◌ x) (copy_into-take n (suc m) b (omega arith))

bytes-hash_from_bytes :
    (k : HashKind) (b : Bytes)
    → bytes (hash_from_bytes k b) ≡ take (byte_len k) (b ++ replicate (byte_len k) 0)
unfolding bytes hash_from_bytes byte_len
bytes-hash_from_bytes sha1_hash_kind b = copy_into-take 20 20 b (omega arith)
bytes-hash_from_bytes sha256_hash_kind b = copy_into-take 32 32 b (omega arith)

-- Every text that `HashFromHex` accepts is hexadecimal, whatever its length, and gives a full hash of
-- the kind: the bytes that the text stands for, filled up with zero bytes if they are too few, and cut
-- behind the kind's length if they are too many.
pub hash_from_hex-HasKind :
    (k : HashKind) (s : Bytes) {h : Hash}
    → hash_from_hex k s ≡ ok h
    → (b : Bytes) × (decode_string s ≡ ok b)
      × (length s ≡ 2 * length b)
      × (bytes h ≡ take (byte_len k) (b ++ replicate (byte_len k) 0))
      × HasKind k h
unfolding hash_from_hex
hash_from_hex-HasKind k s {h} e =
    let (b, d, f) = >>=-eq-ok (decode_string s) _ e in
    let same : hash_from_bytes k b ≡ h = cc f in
    let (twice, small) = decode_string_shape s d in
    (
      b,
      d,
      twice,
      ap bytes (sym same) ∙ bytes-hash_from_bytes k b,
      subst (HasKind k) same (hash_from_bytes-HasKind k b small),
    )

-- Two hashes of one kind are equal exactly if `HashEqual` says so, and exactly if their names agree.
pub hash_equal_iff :
    (k : HashKind) (a b : Hash)
    → HasKind k a
    → HasKind k b
    → ((hash_equal (some a) (some b) ≡ true) ↔ (a ≡ b)) × ((hex a ≡ hex b) ↔ (a ≡ b))
unfolding hash_equal hex
hash_equal_iff k a b va vb = (
  (λ e. of_bytes ((bytes_eq_iff _ _).0 e), λ e. (bytes_eq_iff _ _).1 (ap bytes e)),
  (λ e. of_bytes (of_hex e), ap hex),
)
  where
    of_bytes : bytes a ≡ bytes b → a ≡ b
    of_bytes e =
        sym (hash_from_bytes-bytes k a va) ∙ ap (hash_from_bytes k) e ∙ hash_from_bytes-bytes k b vb

    of_hex : encode_to_string (bytes a) ≡ encode_to_string (bytes b) → bytes a ≡ bytes b
    of_hex e = cc (
      decode_string-encode_to_string (bytes a) (HasKind-bytes k a va),
      decode_string-encode_to_string (bytes b) (HasKind-bytes k b vb),
    )
