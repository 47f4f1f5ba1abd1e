-- ===== src/Tests/Configs.antt =====
-- config.go and repo.go on concrete inputs.
use go_repo_dojo.Base.{
  Bytes, ◌≡◌, refl, subst, ◌&&◌, if◌then◌else◌, some, none, [], ◌∷◌, ◌++◌, arith, codes, bytes_eq,
  ok, err, no_section, map_get, map_set, map_delete,
}
use go_repo_dojo.Text.{index_byte, last_index, split, trim_right}
use go_repo_dojo.Config.{
  Config, new_config, AddConfigInput, get_section, ensure_section, vars_of, set_variable,
  valid_name_char, valid_name, lower_char, to_lower, section_key, add, remove, drop_name,
}
use go_repo_dojo.Config.Syntax.{
  classify_char, same_kind, tokenize_line, parse_line, parsed_variable, parsed_section_header,
  unescape_config_str, unescape_char, escape_runes, escape_rune, escape_char, rune_width,
  escape_config_str, parse_step, parse_lines, parse_config, write, token_open_bracket, token_symbol,
  token_quote, token_close_bracket,
}
use go_repo_dojo.Config.Consistent.{
  IsConsistent, parse_config-IsConsistent, add-IsConsistent, remove-IsConsistent,
}
use go_repo_dojo.Config.Lookup.{lookup, lookup-remove}
use go_repo_dojo.Config.Keys.{dotted, section_of, lookup-add}
use go_repo_dojo.Config.Escape.{IsUtf8, Continues, unescape_config_str-escape_config_str}
use go_repo_dojo.Remotes.{add_remote_entries}
use go_repo_dojo.Remotes.Added.{add_remote_entries_lem}

abbrev one_variable : Config
one_variable = record {
  sections = (codes "core", (codes "bare", codes "false") ∷ []) ∷ [];
  section_order = codes "core" ∷ [];
}

abbrev bare_true : AddConfigInput
bare_true = record { name = codes "Core.Bare"; value = codes "true" }

tokens_of_header :
    tokenize_line (codes "[remote \"a b\"]")
    ≡ (token_open_bracket, codes "[")
      ∷ (token_symbol, codes "remote")
      ∷ (token_quote, codes "\"a b\"")
      ∷ (token_close_bracket, codes "]")
      ∷ []
unfolding tokenize_line classify_char same_kind
tokens_of_header = refl

parsed_header :
    parse_line (tokenize_line (codes "[remote \"a b\"]"))
    ≡ parsed_section_header (codes "remote.a b")
unfolding tokenize_line classify_char same_kind parse_line unescape_config_str unescape_char
parsed_header = refl

parsed_value :
    parse_line (tokenize_line (codes "\tbare =  two words # gone"))
    ≡ parsed_variable (codes "bare") (codes "two words")
unfolding tokenize_line classify_char same_kind parse_line
parsed_value = refl

parsed_one : parse_config (codes "[core]\r\n\tbare = false\n") ≡ one_variable
unfolding parse_config parse_lines parse_step tokenize_line classify_char same_kind parse_line split
    trim_right ensure_section set_variable vars_of map_get map_set new_config bytes_eq
parsed_one = refl

written_one : write (λ vars. vars) one_variable ≡ codes "[core]\n\tbare = false\n"
unfolding write index_byte map_get bytes_eq
written_one = refl

added_without_dot : add new_config (record { name = codes "bare"; value = [] }) ≡ err no_section
unfolding add last_index
added_without_dot = refl

removed_last : remove one_variable (codes "core.bare") ≡ ok new_config
unfolding remove last_index map_get map_delete bytes_eq drop_name new_config
removed_last = refl

one_variable-IsConsistent : IsConsistent one_variable
one_variable-IsConsistent = subst IsConsistent parsed_one (parse_config-IsConsistent _)

parse_config-IsConsistent_example :
    IsConsistent (parse_config (codes "[a]\nx = 1\n[b \"c\"]\ny = 2\n[a]\nz = 3\nbroken"))
parse_config-IsConsistent_example =
    parse_config-IsConsistent (codes "[a]\nx = 1\n[b \"c\"]\ny = 2\n[a]\nz = 3\nbroken")

add-IsConsistent_example :
    IsConsistent (set_variable (codes "core") (codes "bare") (codes "true") one_variable)
unfolding add last_index index_byte to_lower lower_char valid_name valid_name_char section_key
    bytes_eq
add-IsConsistent_example = add-IsConsistent one_variable bare_true one_variable-IsConsistent refl

remove-IsConsistent_example : IsConsistent new_config
unfolding remove last_index map_get map_delete bytes_eq drop_name new_config
remove-IsConsistent_example =
    remove-IsConsistent one_variable (codes "core.bare") one_variable-IsConsistent refl

lookup-add_example :
    (c' : Config) × (add one_variable (record {
      name = dotted (codes "Remote") (codes "My.Fork") (codes "URL");
      value = codes "/srv/b.git";
    })
      ≡ ok c')
    × (lookup c' (codes "remote.My.Fork") (codes "url") ≡ some (codes "/srv/b.git"))
    × (lookup c' (codes "core") (codes "bare") ≡ some (codes "false"))
unfolding section_of dotted to_lower lower_char valid_name valid_name_char lookup get_section
    vars_of map_get bytes_eq
lookup-add_example =
    lookup-add one_variable (codes "Remote") (codes "My.Fork") (codes "URL") (codes "/srv/b.git")
      (codes "core") (codes "bare") (omega arith) (omega arith) refl refl

lookup-remove_example :
    (c' : Config) × (remove one_variable (codes "core" ++ (b'.' ∷ codes "bare")) ≡ ok c')
    × (lookup c' (codes "core") (codes "bare") ≡ (
        if bytes_eq (codes "core") (codes "core") && bytes_eq (codes "bare") (codes "bare")
        then none
        else lookup one_variable (codes "core") (codes "bare")))
unfolding lookup get_section vars_of map_get bytes_eq
lookup-remove_example =
    lookup-remove one_variable (codes "core") (codes "bare") (codes "false") (codes "core")
      (codes "bare") (omega arith) refl

-- A quote, a tab, and characters of two and of three bytes.
abbrev mixed_text : Bytes
mixed_text = codes "a \"b\"\t" ++ (0xc3 ∷ 0xa9 ∷ 0xe2 ∷ 0x82 ∷ 0xac ∷ codes "c")

mixed-IsUtf8 : IsUtf8 mixed_text
unfolding Continues rune_width
mixed-IsUtf8 = tt

unescape_config_str-escape_config_str_example :
    unescape_config_str (escape_config_str mixed_text) ≡ mixed_text
unescape_config_str-escape_config_str_example =
    unescape_config_str-escape_config_str mixed_text mixed-IsUtf8 (omega arith)

-- A byte that is no character is not read back.
no_character :
    unescape_config_str (escape_config_str (codes "a" ++ (0xff ∷ [])))
    ≡ codes "a" ++ (0xef ∷ 0xbf ∷ 0xbd ∷ [])
unfolding escape_config_str escape_runes escape_rune escape_char rune_width unescape_config_str
    unescape_char
no_character = refl

add_remote_entries_lem_example :
    (c' : Config) × (add_remote_entries one_variable (codes "origin") (codes "/srv/a.git") ≡ ok c')
    × (lookup c' (codes "remote." ++ codes "origin") (codes "url") ≡ some (codes "/srv/a.git"))
    × (lookup c' (codes "remote." ++ codes "origin") (codes "fetch")
        ≡ some (codes "+refs/heads/*:refs/remotes/" ++ (codes "origin" ++ codes "/*")))
    × (lookup c' (codes "core") (codes "bare") ≡ lookup one_variable (codes "core") (codes "bare"))
unfolding bytes_eq
add_remote_entries_lem_example =
    add_remote_entries_lem one_variable (codes "origin") (codes "/srv/a.git") (codes "core")
      (codes "bare") (λ e. absurd (cc e)) refl
