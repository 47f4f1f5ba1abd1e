-- ===== src/PackIndex/Found.antt =====
-- The search in an index file finds the offset of every object of the pack, and of no other.
use go_repo_dojo.Base.{
  ℕ, ◌+◌, ◌-◌, ◌*◌, ◌^◌, ◌≤◌, ◌<◌, bit_and, ◌≡◌, ◌≢◌, ◌⊎◌, refl, sym, ap, ◌∙◌, true, false,
  Bool-cases, inl, inr, Option, none, some, List, [], ◌∷◌, ◌++◌, ◌==◌, ltb, if◌then◌else◌, Bytes,
  bytes_eq, bytes_eq_iff, length, get_elem?, get_below, get_index, length-append, append_assoc, map,
  All, All-get_elem?, Result, ok, arith,
}
use go_repo_dojo.Base.Bits.{bit_and_bit, bit_and_low_mask}
use go_repo_dojo.Binary.{uint32, put_uint32, put_uint64, uint32-put_uint32, uint64-put_uint64}
use go_repo_dojo.Hash.{HashKind, byte_len}
use go_repo_dojo.Pkt.Lines.{read_full_exact}
use go_repo_dojo.PackIndex.Search.{IsIncreasing, Searched, search_loop_lem}
use go_repo_dojo.PackIndex.Fanout.{
  first_byte, fanout_from, count_upto-length, count_upto-All, fanout_at-fanout_from, fanout-Places,
}
use go_repo_dojo.PackIndex.Layout.{
  table, length-table, read_at-table, words-HasWidth, long_words-HasWidth, Tables, large_part,
  offset_part, oid_part, fanout_part, index_header, index_file, IsTables, offset_of, get-map_words,
  length-map_words, length-fanout_part, read_fanout-index_file, read_oid_at_index-index_file,
}
use go_repo_dojo.PackIndex.{
  read_at, read_oid_at_index, fanout_at, search_loop, check_right, read_offset_at, offset_found,
  search_tables, search_pack_index,
}

abbrev names_front : Tables → Bytes
names_front t = index_header ++ fanout_part t

abbrev offsets_front : Tables → Bytes
offsets_front t = (names_front t ++ table t.oids) ++ table t.crcs

regroup : (a b c d e : Bytes) → a ++ (b ++ (c ++ (d ++ e))) ≡ (((a ++ b) ++ c) ++ d) ++ e
regroup a b c d e =
    sym (append_assoc a b (c ++ (d ++ e)))
    ∙ sym (append_assoc (a ++ b) c (d ++ e))
    ∙ sym (append_assoc ((a ++ b) ++ c) d e)

length-offsets_front :
    (w : ℕ) (t : Tables)
    → IsTables w t
    → length (offsets_front t) ≡ 1032 + length t.oids * w + length t.oids * 4
length-offsets_front w t h =
    let crcs : length (table t.crcs) ≡ length t.oids * 4 =
      length-table 4 t.crcs h.crc_width ∙ ap (λ (n : ℕ). n * 4) h.as_many_crcs in
    omega (
      arith,
      length-append (names_front t ++ table t.oids) (table t.crcs),
      length-append (names_front t) (table t.oids),
      length-append index_header (fanout_part t),
      length-fanout_part t,
      length-table w t.oids h.oid_width,
      crcs,
    )

offset_in_file : (t : Tables) → index_file t ≡ offsets_front t ++ offset_part t
unfolding index_file
offset_in_file t =
    regroup index_header (fanout_part t) (table t.oids) (table t.crcs) (offset_part t)

large_in_file :
    (t : Tables)
    → index_file t ≡ (offsets_front t ++ table (map put_uint32 t.offsets)) ++ large_part t
large_in_file t =
    offset_in_file t
    ∙ sym (append_assoc (offsets_front t) (table (map put_uint32 t.offsets)) (large_part t))

length-large_front :
    (w : ℕ) (t : Tables)
    → IsTables w t
    → length (offsets_front t ++ table (map put_uint32 t.offsets))
      ≡ 1032 + length t.oids * w + length t.oids * 4 + length t.oids * 4
length-large_front w t h =
    let words : length (table (map put_uint32 t.offsets)) ≡ length t.oids * 4 =
      length-table 4 (map put_uint32 t.offsets) (words-HasWidth t.offsets)
      ∙ ap (λ (n : ℕ). n * 4) (length-map_words t.offsets ∙ h.as_many_offsets) in
    omega (
      arith,
      length-append (offsets_front t) (table (map put_uint32 t.offsets)),
      length-offsets_front w t h,
      words,
    )

small_raw : (raw : ℕ) → raw < 2 ^ 31 → (bit_and raw 0x80000000 == 0) ≡ true
small_raw raw h = ground (arith, bit_and_bit 31 raw)

large_raw :
    (raw : ℕ)
    → raw < 2 ^ 32
    → ltb raw (2 ^ 31) ≡ false
    → ((bit_and raw 0x80000000 == 0) ≡ false) × (bit_and raw 0x7fffffff ≡ raw - 2 ^ 31)
large_raw raw h e =
    (ground (arith, bit_and_bit 31 raw, e), ground (arith, bit_and_low_mask 31 raw, e))

read_offset_at-index_file :
    (w : ℕ) (t : Tables) (i raw : ℕ)
    → IsTables w t
    → get_elem? t.offsets i ≡ some raw
    → read_offset_at (index_file t) (1032 + length t.oids * w + length t.oids * 4) (length t.oids) i
      ≡ ok (offset_of t raw)
unfolding read_offset_at offset_of
read_offset_at-index_file w t i raw h e =
    let fits = All-get_elem? (λ (n : ℕ). n < 2 ^ 32) t.offsets i h.offsets_fit e in
    let there =
      All-get_elem? (λ (n : ℕ). n < 2 ^ 31 + length t.large_offsets) t.offsets i h.large_there e in
    let pos = 1032 + length t.oids * w + length t.oids * 4 in
    let word : read_at (pos + i * 4) 4 (index_file t) ≡ ok (put_uint32 raw) =
      read_at-table 4 (offsets_front t) (large_part t) (map put_uint32 t.offsets) i (put_uint32 raw)
        (index_file t) (pos + i * 4) (words-HasWidth t.offsets)
        (get-map_words put_uint32 t.offsets i raw e) (offset_in_file t)
        (ap (λ (n : ℕ). n + i * 4) (sym (length-offsets_front w t h))) in
    elim (Bool-cases (ltb raw (2 ^ 31))) [
      | inl small ↦
          rw (word, uint32-put_uint32 raw fits, small_raw raw (ground (arith, small)), small) refl
      | inr large ↦
          let (set, low) = large_raw raw fits large in
          let (n, got) = get_below t.large_offsets (raw - 2 ^ 31) (ground (arith, large, there)) in
          let long : read_at (pos + length t.oids * 4 + (raw - 2 ^ 31) * 8) 8 (index_file t)
              ≡ ok (put_uint64 n) =
            read_at-table 8 (offsets_front t ++ table (map put_uint32 t.offsets)) t.trailer
              (map put_uint64 t.large_offsets) (raw - 2 ^ 31) (put_uint64 n) (index_file t)
              (pos + length t.oids * 4 + (raw - 2 ^ 31) * 8) (long_words-HasWidth t.large_offsets)
              (get-map_words put_uint64 t.large_offsets (raw - 2 ^ 31) n got) (large_in_file t)
              (ap (λ (m : ℕ). m + (raw - 2 ^ 31) * 8) (sym (length-large_front w t h))) in
          rw
            (
              word,
              uint32-put_uint32 raw fits,
              set,
              low,
              long,
              uint64-put_uint64 n (
                  All-get_elem? (λ (m : ℕ). m < 2 ^ 64) t.large_offsets (raw - 2 ^ 31) h.large_fit
                    got),
              large,
              got,
            )
            refl
    ]

-- The offset of the name's entry, or none if no entry has the name.
abbrev pub Answers : Tables → Bytes → Result (Option ℕ) → Type 0
Answers t oid result =
    ((i : ℕ) × (raw : ℕ) × (get_elem? t.oids i ≡ some oid)
      × (get_elem? t.offsets i ≡ some raw)
      × (result ≡ ok (some (offset_of t raw))))
    ⊎ ((result ≡ ok none) × ((j : ℕ) → get_elem? t.oids j ≢ some oid))

module _ (k : HashKind) (t : Tables) (first : ℕ) (oid : Bytes) (tables : IsTables (byte_len k) t)
    (increasing : IsIncreasing t.oids) (bytes : All (λ (x : Bytes). first_byte x < 256) t.oids)
    (small : first < 256) where
  abbrev oid_at : ℕ → Result Bytes
  oid_at i = read_oid_at_index (index_file t) 1032 i (byte_len k)

  abbrev fan : List ℕ
  fan = fanout_from 256 0 t.oids

  entry_count : fanout_at fan 255 ≡ length t.oids
  entry_count = fanout_at-fanout_from 256 0 255 t.oids (omega arith) ∙ count_upto-All t.oids bytes

  right_fits : fanout_at fan first ≤ length t.oids
  right_fits =
      omega (
        arith,
        fanout_at-fanout_from 256 0 first t.oids small,
        count_upto-length (0 + first) t.oids,
      )

  searched : Searched t.oids (first ∷ oid) increasing (
      search_loop oid_at
        (first ∷ oid)
        (fanout_at fan first - (if ltb 0 first then fanout_at fan (first - 1) else 0))
        (if ltb 0 first then fanout_at fan (first - 1) else 0)
        (fanout_at fan first))
  searched =
      search_loop_lem t.oids (first ∷ oid) increasing oid_at
        (λ i x e. read_oid_at_index-index_file (byte_len k) t i x tables e)
        (fanout_at fan first - (if ltb 0 first then fanout_at fan (first - 1) else 0))
        (if ltb 0 first then fanout_at fan (first - 1) else 0) (fanout_at fan first) right_fits
        (omega arith) (fanout-Places t.oids first oid increasing small)

  -- The entry at the right boundary has another name.
  nothing_right :
      (right : ℕ)
      → ((j : ℕ) → get_elem? t.oids j ≢ some (first ∷ oid))
      → check_right oid_at (first ∷ oid) (length t.oids) (none, right) ≡ ok none
  unfolding check_right
  nothing_right right absent = elim (Bool-cases (ltb right (length t.oids))) [
    | inr past ↦ rw past refl
    | inl inside ↦
        let (x, e) = get_below t.oids right (ground (arith, inside)) in
        let read = read_oid_at_index-index_file (byte_len k) t right x tables e in
        (elim (Bool-cases (bytes_eq (first ∷ oid) x)) [
          | inr differ ↦ rw (inside, read, differ) refl
          | inl same ↦
              absurd (absent right (e ∙ ap some (sym ((bytes_eq_iff (first ∷ oid) x).0 same))))
        ])
  ]

  -- The search's outcome in the tables behind.
  answer_found :
      (i right : ℕ)
      → search_loop oid_at
          (first ∷ oid)
          (fanout_at fan first - (if ltb 0 first then fanout_at fan (first - 1) else 0))
          (if ltb 0 first then fanout_at fan (first - 1) else 0)
          (fanout_at fan first)
        ≡ ok (some i, right)
      → get_elem? t.oids i ≡ some (first ∷ oid)
      → Answers t (first ∷ oid) (search_tables k (index_file t) fan (first ∷ oid))
  unfolding search_tables check_right offset_found
  answer_found i right e at =
      let (raw, got) =
        get_below t.offsets i (omega (arith, get_index t.oids i at, tables.as_many_offsets)) in
      inl (
        i,
        raw,
        at,
        got,
        rw (e, entry_count, read_offset_at-index_file (byte_len k) t i raw tables got) refl,
      )

  answer_none :
      (right : ℕ)
      → search_loop oid_at
          (first ∷ oid)
          (fanout_at fan first - (if ltb 0 first then fanout_at fan (first - 1) else 0))
          (if ltb 0 first then fanout_at fan (first - 1) else 0)
          (fanout_at fan first)
        ≡ ok (none, right)
      → ((j : ℕ) → get_elem? t.oids j ≢ some (first ∷ oid))
      → Answers t (first ∷ oid) (search_tables k (index_file t) fan (first ∷ oid))
  unfolding search_tables offset_found
  answer_none right e absent = inr (rw (e, entry_count, nothing_right right absent) refl, absent)

  search_tables_lem : Answers t (first ∷ oid) (search_tables k (index_file t) fan (first ∷ oid))
  search_tables_lem = elim searched [
    | inl (i, right, e, at) ↦ answer_found i right e at
    | inr (right, e, absent) ↦ answer_none right e absent
  ]

  -- Take an index file of version 2 with fewer than 2 ^ 32 names, which are sorted and have the length of
  -- the hash, with a fanout table that counts them, as many checksums and offsets, and the large offsets
  -- that these point to. For a name that begins with a byte, the search ends without an error. It gives
  -- the offset of the entry that has the name, from the table of 64 bits if it is a large one, and none if
  -- no entry has the name.
  pub search_pack_index-index_file :
      Answers t (first ∷ oid) (search_pack_index k (index_file t) (first ∷ oid))
  unfolding search_pack_index index_file uint32 bytes_eq
  search_pack_index-index_file =
      let rest = fanout_part t ++ oid_part t in
      let header = read_full_exact (255 ∷ 116 ∷ 79 ∷ 99 ∷ []) (0 ∷ 0 ∷ 0 ∷ 2 ∷ rest) 4 refl in
      let version = read_full_exact (0 ∷ 0 ∷ 0 ∷ 2 ∷ []) rest 4 refl in
      rw (header, version, read_fanout-index_file (byte_len k) t tables) search_tables_lem
