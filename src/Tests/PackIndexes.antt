-- ===== src/Tests/PackIndexes.antt =====
-- The search in a concrete index file.
use go_repo_dojo.Base.{
  ℕ, ◌+◌, ◌^◌, ◌<◌, ◌≡◌, refl, none, some, Option, List, [], ◌∷◌, ◌++◌, arith, Bytes, codes, length,
  All, replicate, ok, err, Result, eof, object_not_found, true, false, take, drop,
}
use go_repo_dojo.Hash.{HashKind, sha1_hash_kind, byte_len}
use go_repo_dojo.Tree.{bytes_less}
use go_repo_dojo.PackIndex.{search_pack_index, search_pack_indexes}
use go_repo_dojo.PackIndex.Search.{IsIncreasing}
use go_repo_dojo.PackIndex.Fanout.{first_byte}
use go_repo_dojo.PackIndex.Layout.{Tables, index_file, IsTables}
use go_repo_dojo.PackIndex.Found.{Answers, search_pack_index-index_file}

-- Two objects, the second beyond 4 GB.
abbrev two_objects : Tables
two_objects = record {
  oids = replicate 20 3 ∷ (7 ∷ replicate 19 1) ∷ [];
  crcs = (1 ∷ 2 ∷ 3 ∷ 4 ∷ []) ∷ (5 ∷ 6 ∷ 7 ∷ 8 ∷ []) ∷ [];
  offsets = 12 ∷ 0x80000000 ∷ [];
  large_offsets = 0x200000000 ∷ [];
  trailer = replicate 40 0;
}

two_objects-IsTables : IsTables (byte_len sha1_hash_kind) two_objects
unfolding byte_len
two_objects-IsTables = record {
  oid_width = (refl, (refl, tt));
  crc_width = (refl, (refl, tt));
  as_many_crcs = refl;
  as_many_offsets = refl;
  count_fits = omega arith;
  offsets_fit = omega arith;
  large_fit = omega arith;
  large_there = omega arith;
}

two_objects-IsIncreasing : IsIncreasing two_objects.oids
unfolding IsIncreasing bytes_less
two_objects-IsIncreasing = ((refl, tt), (tt, tt))

two_objects_bytes : All (λ (x : Bytes). first_byte x < 256) two_objects.oids
unfolding first_byte
two_objects_bytes = omega arith

search_pack_index-index_file_example :
    Answers two_objects
      (7 ∷ replicate 19 1)
      (search_pack_index sha1_hash_kind (index_file two_objects) (7 ∷ replicate 19 1))
search_pack_index-index_file_example =
    search_pack_index-index_file sha1_hash_kind two_objects 7 (replicate 19 1) two_objects-IsTables
      two_objects-IsIncreasing two_objects_bytes (omega arith)

-- A file that is cut off is passed over, and nothing is found.
no_index :
    search_pack_indexes sha1_hash_kind
      (record {
        name = codes "pack-" ++ (replicate 40 97 ++ codes ".idx");
        is_regular = true;
        content = ok (255 ∷ 116 ∷ []);
      }
        ∷ [])
      (codes "07")
    ≡ err object_not_found
unfolding search_pack_indexes go_repo_dojo.Hex.decode_string go_repo_dojo.Text.has_prefix
    go_repo_dojo.Text.has_suffix go_repo_dojo.Hash.hex_len go_repo_dojo.Base.bytes_eq
    search_pack_index go_repo_dojo.Pkt.read_full
no_index = refl
