-- ===== src/Pkt.antt =====
-- net_server_pkt.go: packet lines. A writer is the list of bytes it has been given, a reader the
-- list of bytes that it still holds; write errors of the underlying `io.Writer` are not modelled.
pub mod Lines
pub mod Sideband
use go_repo_dojo.Base.{
  ℕ, zero, suc, ◌+◌, ◌-◌, ◌*◌, Bool, true, false, ◌&&◌, Option, none, some, List, [], ◌∷◌, ◌++◌,
  ltb, leb, ◌==◌, if◌then◌else◌, Bytes, codes, length, take, drop, Result, ok, err, ◌>>=◌, eof,
  unexpected_eof, invalid_pkt_header, invalid_pkt_length, Error,
}
use go_repo_dojo.Hex.{decode_string}
use go_repo_dojo.Number.{format_hex4}

abbrev pub pkt_len_size : ℕ
pkt_len_size = 4

abbrev pub large_packet_max : ℕ
large_packet_max = 65520

abbrev pub sideband_max_chunk : ℕ
sideband_max_chunk = large_packet_max - 5

-- `copy(header[:], h)`: only the first four characters of the print fit.
unfoldable pub pkt_line_header : ℕ → Bytes
pkt_line_header n = take 4 (format_hex4 n)

unfoldable pub write_pkt_line : Bytes → Bytes → Bytes
write_pkt_line w data' = w ++ (pkt_line_header (length data' + pkt_len_size) ++ data')

unfoldable pub write_pkt_flush : Bytes → Bytes
write_pkt_flush w = w ++ codes "0000"

unfoldable pub write_pkt_delim : Bytes → Bytes
write_pkt_delim w = w ++ codes "0001"

unfoldable pub write_pkt_line_sb : Bytes → ℕ → Bytes → Bytes
write_pkt_line_sb w band data' =
    w ++ (pkt_line_header (length data' + pkt_len_size + 1) ++ (band ∷ data'))

-- `io.ReadFull` into a buffer of `n` bytes: the buffer and what the reader holds afterwards.
unfoldable pub read_full : ℕ → Bytes → Result (Bytes × Bytes)
read_full n r =
    if leb n (length r)
    then ok (take n r, drop n r)
    else if length r == 0
    then err eof
    else err unexpected_eof

-- `int(dst[0])<<8 | int(dst[1])`
header_value : Bytes → ℕ
header_value (a ∷ b ∷ _) = a * 256 + b
header_value _ = 0

header_length : Bytes → Result ℕ
header_length h = elim (decode_string h) [
  | ok dst ↦ ok (header_value dst)
  | err _ ↦ err invalid_pkt_header
]

-- The line without one newline at its end.
unfoldable pub chomp : Bytes → Bytes
chomp [] = []
chomp (c ∷ []) = if c == b'\n' then [] else c ∷ []
chomp (c ∷ d ∷ s) = c ∷ chomp (d ∷ s)

-- What both readers do with a length that is none of the special ones they know.
read_data_line : ℕ → Bytes → Result (Bytes × Bytes)
read_data_line len r =
    if ltb len pkt_len_size
    then err invalid_pkt_length
    else (do (buf, r') ← read_full (len - pkt_len_size) r; ok (chomp buf, r'))

read_after_header : ℕ → Bytes → Result (Option Bytes × Bytes)
read_after_header len r =
    if len == 0 then ok (none, r) else (do (buf, r') ← read_data_line len r; ok (some buf, r'))

-- `none` is the nil slice of a flush packet. The lengths 1 to 3 are refused.
unfoldable pub read_pkt_line : Bytes → Result (Option Bytes × Bytes)
unfolding read_full header_length header_value chomp read_data_line read_after_header
read_pkt_line r = do
  (header, r1) ← read_full pkt_len_size r
  len ← header_length header
  read_after_header len r1

pub data PktLineResult : Type 0 where
  pkt_line_data : Bytes → PktLineResult
  pkt_line_flush pkt_line_delim pkt_line_response_end pkt_line_eof : PktLineResult

-- A failed read of the header ends the stream. `io.ReadFull` on a byte list has no other error.
read_header_ex : Bytes → Result (Option Bytes × Bytes)
read_header_ex r = elim (read_full pkt_len_size r) [
  | ok (h, r') ↦ ok (some h, r')
  | err _ ↦ ok (none, [])
]

read_after_header_ex : ℕ → Bytes → Result (PktLineResult × Bytes)
read_after_header_ex len r =
    if len == 0
    then ok (pkt_line_flush, r)
    else if len == 1
    then ok (pkt_line_delim, r)
    else if len == 2
    then ok (pkt_line_response_end, r)
    else (do (buf, r') ← read_data_line len r; ok (pkt_line_data buf, r'))

read_body_ex : Option Bytes → Bytes → Result (PktLineResult × Bytes)
read_body_ex none r = ok (pkt_line_eof, r)
read_body_ex (some header) r = do len ← header_length header; read_after_header_ex len r

unfoldable pub read_pkt_line_ex : Bytes → Result (PktLineResult × Bytes)
unfolding read_full header_length header_value chomp read_data_line read_header_ex read_body_ex
    read_after_header_ex
read_pkt_line_ex r = do (header, r1) ← read_header_ex r; read_body_ex header r1

-- `n := len(data); if n > sidebandMaxChunk { n = sidebandMaxChunk }`
chunk_len : ℕ → ℕ
chunk_len n = if ltb sideband_max_chunk n then sideband_max_chunk else n

-- The loop of `sendSideband`: each round sends a byte at least, so `length data'` rounds are enough.
send_loop : ℕ → ℕ → Bytes → Bytes → Bytes
send_loop fuel band [] w = w
send_loop zero band (c ∷ s) w = w
send_loop (suc fuel) band (c ∷ s) w =
    let n = chunk_len (length (c ∷ s)) in
    send_loop fuel band (drop n (c ∷ s)) (w ++ (pkt_line_header (n + 5) ++ (band ∷ take n (c ∷ s))))

unfoldable pub send_sideband : Bytes → ℕ → Bytes → Bytes
unfolding send_loop chunk_len
send_sideband w band data' = send_loop (length data') band data' w

-- `bufPktLine` and `bufPktFlush` append to a buffer.
unfoldable pub buf_pkt_line : Bytes → Bytes → Bytes
buf_pkt_line buf data' = buf ++ (pkt_line_header (length data' + pkt_len_size) ++ data')

unfoldable pub buf_pkt_flush : Bytes → Bytes
buf_pkt_flush buf = buf ++ codes "0000"
