-- ===== src/Pkt/Lines.antt =====
-- A packet line is read back as it was written.
use go_repo_dojo.Base.{
  Bool, true, false, ◌==◌, if◌then◌else◌, ℕ, ◌+◌, ◌-◌, ◌/◌, ◌%◌, ◌≤◌, ◌<◌, ◌≡◌, refl, ap, ◌∙◌, none,
  some, [], ◌∷◌, ◌++◌, arith, Bytes, length, take-length_append, drop-length_append, length-append,
  append_assoc, ok, err, eof, invalid_pkt_length,
}
use go_repo_dojo.Hex.{hex_char, decode_string}
use go_repo_dojo.Hex.RoundTrip.{from_hex_char-hex_char}
use go_repo_dojo.Number.Hex4.{hex4, format_hex4-hex4, take-format_hex4}
use go_repo_dojo.Pkt.{
  pkt_line_header, write_pkt_line, write_pkt_flush, write_pkt_delim, read_full, header_value,
  header_length, chomp, read_data_line, read_pkt_line, read_after_header, read_pkt_line_ex,
  read_header_ex, read_after_header_ex, pkt_line_data, pkt_line_flush, pkt_line_delim, pkt_line_eof,
}

pub read_full_exact : (xs r : Bytes) (n : ℕ) → n ≡ length xs → read_full n (xs ++ r) ≡ ok (xs, r)
unfolding read_full
read_full_exact xs r n e =
    ground (arith, length-append xs r, take-length_append xs r n e, drop-length_append xs r n e)

decode_hex4 : (n : ℕ) → n < 65536 → decode_string (hex4 n) ≡ ok (n / 256 ∷ n % 256 ∷ [])
unfolding decode_string
decode_hex4 n h = ground (
  arith,
  from_hex_char-hex_char (n / 16 / 16 / 16),
  from_hex_char-hex_char (n / 16 / 16 % 16),
  from_hex_char-hex_char (n / 16 % 16),
  from_hex_char-hex_char (n % 16),
)

header_length-hex4 : (n : ℕ) → n < 65536 → header_length (hex4 n) ≡ ok n
unfolding header_length header_value
header_length-hex4 n h = rw (decode_hex4 n h, header_length) (ap ok (omega arith))

pub pkt_line_header-hex4 : (n : ℕ) → n < 65536 → pkt_line_header n ≡ hex4 n
unfolding pkt_line_header
pkt_line_header-hex4 n h = rw (format_hex4-hex4 n h)

-- The packet readers on a stream that begins with a header for `n`.
read_header :
    (n : ℕ) (r : Bytes) → n < 65536 → read_full 4 (pkt_line_header n ++ r) ≡ ok (hex4 n, r)
read_header n r h = rw (pkt_line_header-hex4 n h) (read_full_exact (hex4 n) r 4 refl)

read_pkt_line-header :
    (n : ℕ) (r : Bytes) → n < 65536 → read_pkt_line (pkt_line_header n ++ r) ≡ read_after_header n r
unfolding read_pkt_line
read_pkt_line-header n r h = rw (read_header n r h) (rw (header_length-hex4 n h))

read_pkt_line_ex-header :
    (n : ℕ) (r : Bytes)
    → n < 65536
    → read_pkt_line_ex (pkt_line_header n ++ r) ≡ read_after_header_ex n r
unfolding read_pkt_line_ex
read_pkt_line_ex-header n r h = rw (read_header n r h, read_header_ex) (rw (header_length-hex4 n h))

data_line : (d rest : Bytes) → read_data_line (length d + 4) (d ++ rest) ≡ ok (chomp d, rest)
unfolding read_data_line
data_line d rest = ground (arith, read_full_exact d rest (length d + 4 - 4) (omega arith))

chomp-onto :
    (x c : ℕ) (d e : Bytes) → chomp (d ++ (c ∷ [])) ≡ e → chomp (x ∷ (d ++ (c ∷ []))) ≡ x ∷ e
unfolding chomp
chomp-onto x c [] e h = ap (◌∷◌ x) h
chomp-onto x c (y ∷ d) e h = ap (◌∷◌ x) h

-- One newline at the end goes, and nothing else.
chomp-append :
    (d : Bytes) (c : ℕ) → chomp (d ++ (c ∷ [])) ≡ (if c == b'\n' then d else d ++ (c ∷ []))
unfolding chomp
chomp-append [] c = refl
chomp-append (x ∷ d) c = chomp-onto x c d _ (chomp-append d c) ∙ go (c == b'\n')
  where
    go :
        (b : Bool)
        → x ∷ (if b then d else d ++ (c ∷ [])) ≡ (if b then x ∷ d else x ∷ (d ++ (c ∷ [])))
    go true = refl
    go false = refl

-- A line of fewer than 65,532 bytes is read back by both readers, less one newline at its end, and
-- what follows it is left in the stream. Nothing but such a newline is cut off.
pub read_pkt_line-write_pkt_line :
    (d rest : Bytes)
    → length d + 4 < 65536
    → (read_pkt_line (write_pkt_line [] d ++ rest) ≡ ok (some (chomp d), rest))
      × (read_pkt_line_ex (write_pkt_line [] d ++ rest) ≡ ok (pkt_line_data (chomp d), rest))
      × ((s : Bytes) (c : ℕ) → chomp (s ++ (c ∷ [])) ≡ (if c == b'\n' then s else s ++ (c ∷ [])))
unfolding write_pkt_line read_after_header read_after_header_ex
read_pkt_line-write_pkt_line d rest h = (
  rw (append_assoc (pkt_line_header (length d + 4)) d rest)
      (read_pkt_line-header _ _ h ∙ ground (arith, data_line d rest)),
  rw (append_assoc (pkt_line_header (length d + 4)) d rest)
      (read_pkt_line_ex-header _ _ h ∙ ground (arith, data_line d rest)),
  chomp-append,
)

special : (n : ℕ) → n < 4 → pkt_line_header n ≡ b'0' ∷ b'0' ∷ b'0' ∷ (b'0' + n) ∷ []
unfolding hex_char
special n h = pkt_line_header-hex4 n (omega arith) ∙ ground arith

-- A flush packet and a delimiter are told apart by `readPktLineEx`, and an empty stream is its end.
-- `readPktLine` returns nil for the flush packet and refuses the delimiter.
pub read_pkt_line_ex_specials :
    (rest : Bytes)
    → (read_pkt_line_ex (write_pkt_flush [] ++ rest) ≡ ok (pkt_line_flush, rest))
      × (read_pkt_line_ex (write_pkt_delim [] ++ rest) ≡ ok (pkt_line_delim, rest))
      × (read_pkt_line_ex [] ≡ ok (pkt_line_eof, []))
      × (read_pkt_line (write_pkt_flush [] ++ rest) ≡ ok (none, rest))
      × (read_pkt_line (write_pkt_delim [] ++ rest) ≡ err invalid_pkt_length)
      × (read_pkt_line [] ≡ err eof)
unfolding write_pkt_flush write_pkt_delim read_after_header read_after_header_ex read_pkt_line
    read_pkt_line_ex
read_pkt_line_ex_specials rest = (
  rw (special 0 (omega arith)) at (read_pkt_line_ex-header 0 rest (omega arith)),
  rw (special 1 (omega arith)) at (read_pkt_line_ex-header 1 rest (omega arith)),
  refl,
  rw (special 0 (omega arith)) at (read_pkt_line-header 0 rest (omega arith)),
  rw (special 1 (omega arith)) at (read_pkt_line-header 1 rest (omega arith)),
  refl,
)

-- From 65,536 bytes on, and below 1,048,576, the header no longer fits: it announces a sixteenth of the packet.
pub pkt_line_header_overflow :
    (n : ℕ) (r : Bytes)
    → 65536 ≤ n
    → n < 1048576
    → read_pkt_line (pkt_line_header n ++ r) ≡ read_pkt_line (pkt_line_header (n / 16) ++ r)
unfolding pkt_line_header
pkt_line_header_overflow n r p h =
    rw (take-format_hex4 n p h, format_hex4-hex4 (n / 16) (omega arith)) refl
