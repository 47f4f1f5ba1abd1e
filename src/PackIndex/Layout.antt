-- ===== src/PackIndex/Layout.antt =====
-- The layout of an index file, and what the reads of its tables give.
use go_repo_dojo.Base.{
  ℕ, zero, suc, ◌+◌, ◌-◌, ◌*◌, ◌^◌, ◌<◌, ◌≡◌, refl, sym, ap, ◌∙◌, subst, none, some, List, [], ◌∷◌,
  ◌++◌, ltb, if◌then◌else◌, Bytes, length, get_elem?, drop, length-append, append_assoc, map,
  drop-length_append, drop-drop, All, ok, arith,
}
use go_repo_dojo.Binary.{
  put_uint32, put_uint64, uint32-put_uint32, length-put_uint32, length-put_uint64,
}
use go_repo_dojo.Pkt.Lines.{read_full_exact}
use go_repo_dojo.PackIndex.{read_at, read_oid_at_index, read_fanout}
use go_repo_dojo.PackIndex.Fanout.{fanout_from, count_upto-length}

zero_times : (w : ℕ) → 0 * w ≡ 0
zero_times w = omega arith

suc_times : (w i : ℕ) → suc i * w ≡ w + i * w
suc_times w i = grind arith

-- A table: its rows, one after the other.
unfoldable pub table : List Bytes → Bytes
table [] = []
table (x ∷ xs) = x ++ table xs

abbrev pub HasWidth : ℕ → List Bytes → Type 0
HasWidth w xs = All (λ (x : Bytes). length x ≡ w) xs

pub length-table : (w : ℕ) (xs : List Bytes) → HasWidth w xs → length (table xs) ≡ length xs * w
unfolding table
length-table w [] h = sym (zero_times w)
length-table w (x ∷ xs) (hx, h) =
    length-append x (table xs) ∙ omega (arith, hx, length-table w xs h, suc_times w (length xs))

row_at :
    (w : ℕ) (xs : List Bytes) (i : ℕ) (x rest : Bytes)
    → HasWidth w xs
    → get_elem? xs i ≡ some x
    → (tail : Bytes) × (drop (i * w) (table xs ++ rest) ≡ x ++ tail) × (length x ≡ w)
unfolding table
row_at w [] i x rest h e = absurd (cc e)
row_at w (y ∷ ys) zero x rest (hy, h) e =
    let same : y ≡ x = cc e in
    (
      table ys ++ rest,
      ap (λ (k : ℕ). drop k ((y ++ table ys) ++ rest)) (zero_times w)
          ∙ append_assoc y (table ys) rest
          ∙ ap (λ (t : Bytes). t ++ (table ys ++ rest)) same,
      ap (λ (t : Bytes). length t) (sym same) ∙ hy,
    )
row_at w (y ∷ ys) (suc i) x rest (hy, h) e =
    let (tail, d, l) = row_at w ys i x rest h e in
    (
      tail,
      sym (drop-drop w (i * w) (suc i * w) ((y ++ table ys) ++ rest) (suc_times w i))
          ∙ ap (λ (t : Bytes). drop (i * w) (drop w t)) (append_assoc y (table ys) rest)
          ∙ ap (drop (i * w)) (drop-length_append y (table ys ++ rest) w (sym hy))
          ∙ d,
      l,
    )

-- A read at a row of a table gives the row.
pub read_at-table :
    (w : ℕ) (front rest : Bytes) (xs : List Bytes) (i : ℕ) (x : Bytes) (file : Bytes) (pos : ℕ)
    → HasWidth w xs
    → get_elem? xs i ≡ some x
    → file ≡ front ++ (table xs ++ rest)
    → pos ≡ length front + i * w
    → read_at pos w file ≡ ok x
unfolding read_at
read_at-table w front rest xs i x file pos h e is_file is_pos =
    let (tail, d, l) = row_at w xs i x rest h e in
    let here : drop pos file ≡ x ++ tail =
      ap (drop pos) is_file
      ∙ sym (drop-drop (length front) (i * w) pos (front ++ (table xs ++ rest)) is_pos)
      ∙ ap (drop (i * w)) (drop-length_append front (table xs ++ rest) (length front) refl)
      ∙ d in
    rw (here, read_full_exact x tail w (sym l)) refl

pub words-HasWidth : (ns : List ℕ) → HasWidth 4 (map put_uint32 ns)
words-HasWidth [] = tt
words-HasWidth (n ∷ ns) = (length-put_uint32 n, words-HasWidth ns)

pub long_words-HasWidth : (ns : List ℕ) → HasWidth 8 (map put_uint64 ns)
long_words-HasWidth [] = tt
long_words-HasWidth (n ∷ ns) = (length-put_uint64 n, long_words-HasWidth ns)

pub read_fanout-table :
    (ns : List ℕ) (rest : Bytes)
    → All (λ (n : ℕ). n < 2 ^ 32) ns
    → read_fanout (length ns) (table (map put_uint32 ns) ++ rest) ≡ ok (ns, rest)
unfolding read_fanout table
read_fanout-table [] rest h = refl
read_fanout-table (n ∷ ns) rest (hn, h) =
    rw
      (
        append_assoc (put_uint32 n) (table (map put_uint32 ns)) rest,
        read_full_exact (put_uint32 n) (table (map put_uint32 ns) ++ rest) 4
            (sym (length-put_uint32 n)),
        read_fanout-table ns rest h,
        uint32-put_uint32 n hn,
      )
      refl

-- The tables of an index: the names, their checksums, the offsets, and those that take 64 bits.
pub record Tables : Type 0 where
  pub oids : List Bytes
  pub crcs : List Bytes
  pub offsets : List ℕ
  pub large_offsets : List ℕ
  pub trailer : Bytes

abbrev pub large_part : Tables → Bytes
large_part t = table (map put_uint64 t.large_offsets) ++ t.trailer

abbrev pub offset_part : Tables → Bytes
offset_part t = table (map put_uint32 t.offsets) ++ large_part t

abbrev pub oid_part : Tables → Bytes
oid_part t = table t.oids ++ (table t.crcs ++ offset_part t)

abbrev pub fanout_part : Tables → Bytes
fanout_part t = table (map put_uint32 (fanout_from 256 0 t.oids))

abbrev pub index_header : Bytes
index_header = 255 ∷ 116 ∷ 79 ∷ 99 ∷ 0 ∷ 0 ∷ 0 ∷ 2 ∷ []

unfoldable pub index_file : Tables → Bytes
index_file t = index_header ++ (fanout_part t ++ oid_part t)

pub record IsTables (w : ℕ) (t : Tables) : Type 0 where
  pub oid_width : HasWidth w t.oids
  pub crc_width : HasWidth 4 t.crcs
  pub as_many_crcs : length t.crcs ≡ length t.oids
  pub as_many_offsets : length t.offsets ≡ length t.oids
  pub count_fits : length t.oids < 2 ^ 32
  pub offsets_fit : All (λ (n : ℕ). n < 2 ^ 32) t.offsets
  pub large_fit : All (λ (n : ℕ). n < 2 ^ 64) t.large_offsets
  pub large_there : All (λ (n : ℕ). n < 2 ^ 31 + length t.large_offsets) t.offsets

-- What an entry of the offsets stands for.
unfoldable pub offset_of : Tables → ℕ → ℕ
offset_of t raw =
    if ltb raw (2 ^ 31)
    then raw
    else (elim (get_elem? t.large_offsets (raw - 2 ^ 31)) [ none ↦ 0 | some n ↦ n ])

pub length-map_words : (ns : List ℕ) → length (map put_uint32 ns) ≡ length ns
length-map_words [] = refl
length-map_words (n ∷ ns) = ap suc (length-map_words ns)

length-fanout_from : (n b : ℕ) (oids : List Bytes) → length (fanout_from n b oids) ≡ n
unfolding fanout_from
length-fanout_from zero b oids = refl
length-fanout_from (suc n) b oids = ap suc (length-fanout_from n (suc b) oids)

fanout_fits :
    (n b : ℕ) (oids : List Bytes)
    → length oids < 2 ^ 32
    → All (λ (m : ℕ). m < 2 ^ 32) (fanout_from n b oids)
unfolding fanout_from
fanout_fits zero b oids h = tt
fanout_fits (suc n) b oids h =
    (omega (arith, count_upto-length b oids), fanout_fits n (suc b) oids h)

pub length-fanout_part : (t : Tables) → length (fanout_part t) ≡ 1024
length-fanout_part t =
    length-table 4 (map put_uint32 (fanout_from 256 0 t.oids))
      (words-HasWidth (fanout_from 256 0 t.oids))
    ∙ ap (λ (n : ℕ). n * 4)
        (length-map_words (fanout_from 256 0 t.oids) ∙ length-fanout_from 256 0 t.oids)

pub read_fanout-index_file :
    (w : ℕ) (t : Tables)
    → IsTables w t
    → read_fanout 256 (fanout_part t ++ oid_part t) ≡ ok (fanout_from 256 0 t.oids, oid_part t)
read_fanout-index_file w t h =
    subst
      (λ (n : ℕ).
        read_fanout n (fanout_part t ++ oid_part t) ≡ ok (fanout_from 256 0 t.oids, oid_part t))
      (length-fanout_from 256 0 t.oids)
      (read_fanout-table (fanout_from 256 0 t.oids) (oid_part t)
        (fanout_fits 256 0 t.oids h.count_fits))

pub read_oid_at_index-index_file :
    (w : ℕ) (t : Tables) (i : ℕ) (x : Bytes)
    → IsTables w t
    → get_elem? t.oids i ≡ some x
    → read_oid_at_index (index_file t) 1032 i w ≡ ok x
unfolding read_oid_at_index index_file
read_oid_at_index-index_file w t i x h e =
    read_at-table w (index_header ++ fanout_part t) (table t.crcs ++ offset_part t) t.oids i x
      (index_file t) (1032 + i * w) h.oid_width e
      (sym (append_assoc index_header (fanout_part t) (oid_part t)))
      (omega (arith, length-append index_header (fanout_part t), length-fanout_part t))

pub get-map_words :
    (f : ℕ → Bytes) (ns : List ℕ) (i n : ℕ)
    → get_elem? ns i ≡ some n
    → get_elem? (map f ns) i ≡ some (f n)
get-map_words f [] i n e = absurd (cc e)
get-map_words f (m ∷ ns) zero n e = ap (λ (k : ℕ). some (f k)) (cc e)
get-map_words f (m ∷ ns) (suc i) n e = get-map_words f ns i n e
