-- ===== src/Tests/Codecs.antt =====
-- Hashes, packet lines and pack entries at concrete inputs.
use go_repo_dojo.Base.{
  ℕ, ◌==◌, if◌then◌else◌, ◌*◌, take, Bytes, ◌/◌, ◌≡◌, ◌↔◌, refl, none, some, [], ◌∷◌, ◌++◌, true,
  arith, codes, length, replicate, ok, err, eof, invalid_pkt_length,
}
use go_repo_dojo.Hex.{encode_to_string, decode_string}
use go_repo_dojo.Hash.{
  Hash, sha1_hash_kind, sha1_hash, bytes, byte_len, hex, hash_from_hex, hash_equal,
}
use go_repo_dojo.Hash.Laws.{HasKind, hash_from_hex-HasKind, hash_equal_iff}
use go_repo_dojo.Number.{format_uint, parse_uint, format_hex4}
use go_repo_dojo.Object.{object_kind_tree, object_kind_commit}
use go_repo_dojo.Pkt.{
  pkt_line_header, write_pkt_line, write_pkt_flush, write_pkt_delim, read_pkt_line,
  read_pkt_line_ex, pkt_line_data, pkt_line_flush, pkt_line_delim, pkt_line_eof, chomp,
  send_sideband,
}
use go_repo_dojo.Pkt.Lines.{
  read_pkt_line-write_pkt_line, read_pkt_line_ex_specials, pkt_line_header_overflow,
}
use go_repo_dojo.Pkt.Sideband.{Sent, send_sideband-Sent}
use go_repo_dojo.Pack.{
  Entry, basic, init_pack_object_reader_at_position, write_object_header, read_offset, ofs_delta,
  entry_of,
}
use go_repo_dojo.Pack.EntryHeader.{init_pack_object_reader-write_object_header}
use go_repo_dojo.Pack.Offset.{encode_offset, read_offset-encode_offset}

abbrev ones : Hash
ones = sha1_hash (replicate 20 0x1a)

abbrev twos : Hash
twos = sha1_hash (replicate 20 0x2b)

decode_mixed : decode_string (codes "00fF1a") ≡ ok (0 ∷ 255 ∷ 26 ∷ [])
unfolding decode_string
decode_mixed = refl

short_name :
    hash_from_hex sha1_hash_kind (codes "1a2b") ≡ ok (sha1_hash (0x1a ∷ 0x2b ∷ replicate 18 0))
unfolding hash_from_hex
short_name = refl

hash_from_hex-HasKind_example :
    let h = sha1_hash (0x1a ∷ 0x2b ∷ replicate 18 0) in
    (b : Bytes) × (decode_string (codes "1a2b") ≡ ok b)
    × (4 ≡ 2 * length b)
    × (bytes h ≡ take 20 (b ++ replicate 20 0))
    × HasKind sha1_hash_kind h
unfolding byte_len
hash_from_hex-HasKind_example = hash_from_hex-HasKind sha1_hash_kind (codes "1a2b") short_name

hash_equal_iff_example :
    ((hash_equal (some ones) (some twos) ≡ true) ↔ (ones ≡ twos))
    × ((hex ones ≡ hex twos) ↔ (ones ≡ twos))
hash_equal_iff_example = hash_equal_iff sha1_hash_kind ones twos (omega arith) (omega arith)

parse_octal : parse_uint 8 32 (codes "100644") ≡ some 33188
unfolding parse_uint
parse_octal = refl

parse_too_large : parse_uint 10 64 (codes "18446744073709551616") ≡ none
unfolding parse_uint
parse_too_large = refl

header_of_ten : pkt_line_header 10 ≡ codes "000a"
unfolding pkt_line_header format_hex4 format_uint go_repo_dojo.Hex.hex_char
header_of_ten = refl

read_pkt_line-write_pkt_line_example :
    (read_pkt_line (write_pkt_line [] (codes "want\n") ++ codes "0000")
      ≡ ok (some (chomp (codes "want\n")), codes "0000"))
    × (read_pkt_line_ex (write_pkt_line [] (codes "want\n") ++ codes "0000")
        ≡ ok (pkt_line_data (chomp (codes "want\n")), codes "0000"))
    × ((s : Bytes) (c : ℕ) → chomp (s ++ (c ∷ [])) ≡ (if c == b'\n' then s else s ++ (c ∷ [])))
read_pkt_line-write_pkt_line_example =
    read_pkt_line-write_pkt_line (codes "want\n") (codes "0000") (omega arith)

chomped : chomp (codes "want\n") ≡ codes "want"
unfolding chomp
chomped = refl

specials :
    (read_pkt_line_ex (write_pkt_flush [] ++ codes "x") ≡ ok (pkt_line_flush, codes "x"))
    × (read_pkt_line_ex (write_pkt_delim [] ++ codes "x") ≡ ok (pkt_line_delim, codes "x"))
    × (read_pkt_line_ex [] ≡ ok (pkt_line_eof, []))
    × (read_pkt_line (write_pkt_flush [] ++ codes "x") ≡ ok (none, codes "x"))
    × (read_pkt_line (write_pkt_delim [] ++ codes "x") ≡ err invalid_pkt_length)
    × (read_pkt_line [] ≡ err eof)
specials = read_pkt_line_ex_specials (codes "x")

pkt_line_header_overflow_example :
    read_pkt_line (pkt_line_header 65552 ++ codes "x")
    ≡ read_pkt_line (pkt_line_header (65552 / 16) ++ codes "x")
pkt_line_header_overflow_example =
    pkt_line_header_overflow 65552 (codes "x") (omega arith) (omega arith)

send_sideband-Sent_example :
    Sent 1 (codes "done") (codes "0000") (send_sideband (codes "0000") 1 (codes "done"))
    × (send_sideband (codes "0000") 1 [] ≡ codes "0000")
send_sideband-Sent_example = send_sideband-Sent (codes "0000") 1 (codes "done")

large_header : write_object_header object_kind_commit 300 ≡ 0x9c ∷ 0x12 ∷ []
unfolding write_object_header go_repo_dojo.Pack.object_kind_to_pack_object_kind
large_header = refl

init_pack_object_reader-write_object_header_example :
    init_pack_object_reader_at_position
      (codes "PACK" ++ (write_object_header object_kind_tree 300 ++ codes "z"))
      (length (codes "PACK"))
    ≡ ok (basic object_kind_tree, 300, codes "z")
init_pack_object_reader-write_object_header_example =
    init_pack_object_reader-write_object_header object_kind_tree 300 (codes "PACK") (codes "z")
      (omega arith)

offset_of_128 : read_offset (0x80 ∷ 0x00 ∷ []) ≡ ok (128, [])
unfolding read_offset
offset_of_128 = refl

read_offset-encode_offset_example :
    read_offset (encode_offset 20000 ++ codes "z") ≡ ok (20000, codes "z")
read_offset-encode_offset_example = read_offset-encode_offset 20000 (codes "z") (omega arith)
