-- ===== src/Config/Syntax.antt =====
-- config.go: the lines of a configuration file, read and written. Text is taken byte by byte: every
-- character that the code looks for is ASCII, and the bytes of other characters are all symbols.
use go_repo_dojo.Base.{
  ltb, leb, suc, zero, ℕ, ◌+◌, ◌-◌, Bool, true, false, ◌&&◌, ◌||◌, Option, none, some, List, [],
  ◌∷◌, ◌++◌, ◌==◌, if◌then◌else◌, Bytes, codes, length, take, drop, map_get,
}
use go_repo_dojo.Text.{index_byte, split, trim_right}
use go_repo_dojo.Config.{Vars, Config, new_config, ensure_section, set_variable}

pub data TokenKind : Type 0 where
  token_whitespace token_comment token_open_bracket token_close_bracket : TokenKind
  token_equals token_quote token_symbol : TokenKind

unfoldable pub classify_char : ℕ → TokenKind
classify_char r =
    if r == b' ' || r == b'\t'
    then token_whitespace
    else if r == b'#'
    then token_comment
    else if r == b'['
    then token_open_bracket
    else if r == b']'
    then token_close_bracket
    else if r == b'='
    then token_equals
    else if r == b'"'
    then token_quote
    else token_symbol

unfoldable pub same_kind : TokenKind → TokenKind → Bool
same_kind token_whitespace token_whitespace = true
same_kind token_comment token_comment = true
same_kind token_open_bracket token_open_bracket = true
same_kind token_close_bracket token_close_bracket = true
same_kind token_equals token_equals = true
same_kind token_quote token_quote = true
same_kind token_symbol token_symbol = true
same_kind _ _ = false

-- What a character does to the token that is open: the branches of the loop, in their order.
pub data Step : Type 0 where
  skip_next close extend start : Step

step : TokenKind → ℕ → Step
step k r =
    if same_kind k token_quote && r == b'\\'
    then skip_next
    else if same_kind k token_quote && same_kind (classify_char r) token_quote
    then close
    else if same_kind k (classify_char r) || same_kind k token_comment || same_kind k token_quote
    then extend
    else start

-- White space and comments are not saved.
save : TokenKind → Bytes → List (TokenKind × Bytes) → List (TokenKind × Bytes)
save token_whitespace text tokens = tokens
save token_comment text tokens = tokens
save k text tokens = (k, text) ∷ tokens

-- `current` is the open token with its text so far.
tokens_from : Option (TokenKind × Bytes) → Bytes → List (TokenKind × Bytes)
unfolding step save
tokens_from none [] = []
tokens_from (some (k, text)) [] = save k text []
tokens_from none (r ∷ line) = tokens_from (some (classify_char r, r ∷ [])) line
tokens_from (some (k, text)) (r ∷ []) = elim (step k r) [
  | skip_next ↦ save k (text ++ (r ∷ [])) []
  | close ↦ (k, text ++ (r ∷ [])) ∷ []
  | extend ↦ save k (text ++ (r ∷ [])) []
  | start ↦ save k text (save (classify_char r) (r ∷ []) [])
]
tokens_from (some (k, text)) (r ∷ c ∷ line) = elim (step k r) [
  | skip_next ↦ tokens_from (some (k, text ++ (r ∷ c ∷ []))) line
  | close ↦ (k, text ++ (r ∷ [])) ∷ tokens_from none (c ∷ line)
  | extend ↦ tokens_from (some (k, text ++ (r ∷ []))) (c ∷ line)
  | start ↦ save k text (tokens_from (some (classify_char r, r ∷ [])) (c ∷ line))
]

unfoldable pub tokenize_line : Bytes → List (TokenKind × Bytes)
unfolding tokens_from step save
tokenize_line line = tokens_from none line

pub data ParsedLine : Type 0 where
  parsed_empty parsed_invalid : ParsedLine
  parsed_section_header : Bytes → ParsedLine
  parsed_variable : Bytes → Bytes → ParsedLine

-- The character that stands for an escape, or the two as they are.
unfoldable pub unescape_char : ℕ → Bytes
unescape_char next =
    if next == b'"' || next == b'\''
    then next ∷ []
    else if next == b'n'
    then b'\n' ∷ []
    else if next == b'r'
    then b'\r' ∷ []
    else if next == b't'
    then b'\t' ∷ []
    else b'\\' ∷ next ∷ []

unfoldable pub unescape_config_str : Bytes → Bytes
unfolding unescape_char
unescape_config_str [] = []
unescape_config_str (c ∷ []) = c ∷ []
unescape_config_str (c ∷ next ∷ s) =
    let after_escape = unescape_config_str s in
    let after_char = unescape_config_str (next ∷ s) in
    if c == b'\\' then unescape_char next ++ after_escape else c ∷ after_char

unfoldable pub escape_char : ℕ → Bytes
escape_char c =
    if c == b'"' || c == b'\''
    then b'\\' ∷ c ∷ []
    else if c == b'\n'
    then b'\\' ∷ b'n' ∷ []
    else if c == b'\r'
    then b'\\' ∷ b'r' ∷ []
    else if c == b'\t'
    then b'\\' ∷ b't' ∷ []
    else c ∷ []

-- `for _, c := range s` decodes UTF-8: the bytes of the character at the front, and 0 where none is.
in_range : ℕ → ℕ → ℕ → Bool
in_range low high c = leb low c && leb c high

abbrev continues : ℕ → Bool
continues = in_range 0x80 0xbf

-- The range of the second byte of a character of three or four bytes, by the first.
second_of : ℕ → ℕ → Bool
unfolding in_range
second_of a b =
    if a == 0xe0
    then in_range 0xa0 0xbf b
    else if a == 0xed
    then in_range 0x80 0x9f b
    else if a == 0xf0
    then in_range 0x90 0xbf b
    else if a == 0xf4
    then in_range 0x80 0x8f b
    else continues b

width_2 : Bytes → ℕ
unfolding in_range
width_2 (b ∷ s) = if continues b then 2 else 0
width_2 _ = 0

width_3 : ℕ → Bytes → ℕ
unfolding in_range second_of
width_3 a (b ∷ c ∷ s) = if second_of a b && continues c then 3 else 0
width_3 a _ = 0

width_4 : ℕ → Bytes → ℕ
unfolding in_range second_of
width_4 a (b ∷ c ∷ d ∷ s) = if second_of a b && (continues c && continues d) then 4 else 0
width_4 a _ = 0

unfoldable pub rune_width : Bytes → ℕ
unfolding in_range second_of width_2 width_3 width_4
rune_width [] = 0
rune_width (a ∷ s) =
    if ltb a 0x80
    then 1
    else if in_range 0xc2 0xdf a
    then width_2 s
    else if in_range 0xe0 0xef a
    then width_3 a s
    else if in_range 0xf0 0xf4 a
    then width_4 a s
    else 0

-- `utf8.RuneError`, as `WriteRune` writes it.
abbrev pub rune_error : Bytes
rune_error = 0xef ∷ 0xbf ∷ 0xbd ∷ []

-- The character that begins here, where its other bytes are copied with it, or U+FFFD for one byte.
unfoldable pub escape_rune : ℕ → ℕ → (ℕ → Bytes) → Bytes
escape_rune zero c next = rune_error ++ next 0
escape_rune (suc more) c next = escape_char c ++ next more

-- `more` bytes still belong to the last character.
unfoldable pub escape_runes : ℕ → Bytes → Bytes
escape_runes more [] = []
escape_runes (suc more) (c ∷ s) = c ∷ escape_runes more s
escape_runes zero (c ∷ s) = escape_rune (rune_width (c ∷ s)) c (λ more'. escape_runes more' s)

unfoldable pub escape_config_str : Bytes → Bytes
escape_config_str s = escape_runes 0 s

-- `quoted[1 : len(quoted)-1]`
unquoted : Bytes → Bytes
unquoted quoted = take (length quoted - 2) (drop 1 quoted)

text_of : TokenKind × Bytes → Bytes
text_of (k, text) = text

-- `strings.Join(tokens[2:], " ")`
value_of : List (TokenKind × Bytes) → Bytes
unfolding text_of
value_of [] = []
value_of (t ∷ []) = text_of t
value_of (t ∷ u ∷ ts) = text_of t ++ (b' ' ∷ value_of (u ∷ ts))

unfoldable pub parse_line : List (TokenKind × Bytes) → ParsedLine
unfolding unquoted value_of text_of
parse_line [] = parsed_empty
parse_line ((token_open_bracket, _) ∷ (token_symbol, name) ∷ (token_close_bracket, _) ∷ []) =
    parsed_section_header name
parse_line
      ((token_open_bracket, _)
        ∷ (token_symbol, name)
        ∷ (token_quote, quoted)
        ∷ (token_close_bracket, _)
        ∷ []) =
    parsed_section_header (name ++ (b'.' ∷ unescape_config_str (unquoted quoted)))
parse_line ((token_symbol, name) ∷ (token_equals, _) ∷ t ∷ ts) =
    parsed_variable name (value_of (t ∷ ts))
parse_line _ = parsed_invalid

-- One line: the configuration so far, and the name of the section that is open, empty at first.
unfoldable pub parse_step : ParsedLine → Config × Bytes → Config × Bytes
parse_step parsed_empty state = state
parse_step parsed_invalid state = state
parse_step (parsed_section_header section) (c, current) = (ensure_section section c, section)
parse_step (parsed_variable name value) (c, []) = (c, [])
parse_step (parsed_variable name value) (c, x ∷ current) =
    (set_variable (x ∷ current) name value c, x ∷ current)

abbrev carriage_return : ℕ → Bool
carriage_return c = c == b'\r'

unfoldable pub parse_lines : List Bytes → Config × Bytes → Config × Bytes
unfolding parse_step
parse_lines [] state = state
parse_lines (line ∷ lines) state =
    parse_lines lines
      (parse_step (parse_line (tokenize_line (trim_right carriage_return line))) state)

-- `parseConfig` never fails.
unfoldable pub parse_config : Bytes → Config
unfolding parse_lines
parse_config content = (parse_lines (split content b'\n') (new_config, [])).0

header_line : Bytes → Option ℕ → Bytes
header_line section none = codes "[" ++ (section ++ codes "]\n")
header_line section (some dot) =
    codes "["
    ++ (take dot section
        ++ (codes " \"" ++ (escape_config_str (drop (dot + 1) section) ++ codes "\"]\n")))

variable_lines : Vars → Bytes
variable_lines [] = []
variable_lines ((name, value) ∷ vars) =
    codes "\t" ++ (name ++ (codes " = " ++ (value ++ (codes "\n" ++ variable_lines vars))))

-- Go visits the variables of a section in an order of its own, `visit`.
module _ (visit : Vars → Vars) where
  write_sections : List Bytes → Config → Bytes
  unfolding header_line variable_lines
  write_sections [] c = []
  write_sections (section ∷ order) c =
      let rest = write_sections order c in
      elim (map_get section c.sections) [
        | none ↦ rest
        | some vars ↦
            header_line section (index_byte section b'.') ++ (variable_lines (visit vars) ++ rest)
      ]

  -- What `Write` leaves in the file.
  unfoldable pub write : Config → Bytes
  unfolding write_sections
  write c = write_sections c.section_order c
