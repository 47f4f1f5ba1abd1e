-- ===== src/Config.antt =====
-- config.go: the parsed configuration with `GetSection`, `Add` and `Remove`. An `Add` or a `Remove`
-- that fails changes nothing.
pub mod Syntax
pub mod Consistent
pub mod Lookup
pub mod Escape
pub mod Keys
use go_repo_dojo.Base.{
  ℕ, ◌+◌, Bool, true, false, ◌&&◌, ◌||◌, Option, none, some, List, [], ◌∷◌, ◌++◌, ◌==◌, leb,
  if◌then◌else◌, Bytes, bytes_eq, take, drop, map, Result, ok, err, or_err, ◌>>=◌, no_section,
  invalid_config_name, section_missing, variable_missing, map_get, map_set, map_delete,
}
use go_repo_dojo.Text.{index_byte, last_index}

abbrev pub Vars : Type 0
Vars = List (Bytes × Bytes)

pub record Config : Type 0 where
  pub sections : List (Bytes × Vars)
  pub section_order : List Bytes

unfoldable pub new_config : Config
new_config = record { sections = []; section_order = [] }

pub record AddConfigInput : Type 0 where
  pub name : Bytes
  pub value : Bytes

-- `GetSection`; `none` is nil.
unfoldable pub get_section : Config → Bytes → Option Vars
get_section c section = map_get section c.sections

-- `if c.sections[name] == nil { … }`: a new section stands at the end of the order.
unfoldable pub ensure_section : Bytes → Config → Config
ensure_section section c = elim (map_get section c.sections) [
  | some vars ↦ c
  | none ↦ record {
    sections = map_set section [] c.sections;
    section_order = c.section_order ++ (section ∷ []);
  }
]

unfoldable pub vars_of : Option Vars → Vars
vars_of none = []
vars_of (some vars) = vars

-- `c.sections[section][name] = value`, where the section may be new.
unfoldable pub set_variable : Bytes → Bytes → Bytes → Config → Config
set_variable section name value c =
    let c' = ensure_section section c in
    let vars = vars_of (map_get section c'.sections) in
    record c' { sections = map_set section (map_set name value vars) c'.sections }

unfoldable pub valid_name_char : ℕ → Bool
valid_name_char c =
    (leb b'a' c && leb c b'z')
    || (leb b'A' c && leb c b'Z')
    || (leb b'0' c && leb c b'9')
    || c == b'-'

all_valid : Bytes → Bool
all_valid [] = true
all_valid (c ∷ s) = valid_name_char c && all_valid s

unfoldable pub valid_name : Bytes → Bool
unfolding all_valid
valid_name [] = false
valid_name (c ∷ s) = all_valid (c ∷ s)

-- `strings.ToLower`, which only sees ASCII here.
unfoldable pub lower_char : ℕ → ℕ
lower_char c = if leb b'A' c && leb c b'Z' then c + 32 else c

unfoldable pub to_lower : Bytes → Bytes
to_lower s = map lower_char s

-- The section and the subsection, split at the first dot; no dot means an empty subsection.
section_parts : Bytes → Option ℕ → Bytes × Bytes
section_parts s none = (s, [])
section_parts s (some first_dot) = (take first_dot s, drop (first_dot + 1) s)

-- The key of a section: the lower-case name, and the subsection as it is.
unfoldable pub section_key : Bytes × Bytes → Bytes
section_key (section, subsection) =
    if bytes_eq subsection [] then to_lower section else to_lower section ++ (b'.' ∷ subsection)

-- `input.Name` cut at the last dot, checked, and turned into the keys of the section and the variable.
add_keys : Bytes → Option ℕ → Result (Bytes × Bytes)
add_keys input none = err no_section
add_keys input (some last_dot) =
    let parts = section_parts (take last_dot input) (index_byte (take last_dot input) b'.') in
    let var_name = drop (last_dot + 1) input in
    if valid_name parts.0 && valid_name var_name
    then ok (section_key parts, to_lower var_name)
    else err invalid_config_name

unfoldable pub add : Config → AddConfigInput → Result Config
unfolding add_keys section_parts
add c input = do
  (section, var_name) ← add_keys input.name (last_index input.name b'.')
  ok (set_variable section var_name input.value c)

-- The order without the first occurrence of the name.
unfoldable pub drop_name : Bytes → List Bytes → List Bytes
drop_name section [] = []
drop_name section (s ∷ order) =
    let rest = drop_name section order in if bytes_eq s section then order else s ∷ rest

-- A section that lost its last variable goes, from the map and from the order.
after_delete : Bytes → Vars → Config → Config
after_delete section [] c = record {
  sections = map_delete section c.sections;
  section_order = drop_name section c.section_order;
}
after_delete section (v ∷ vars) c = record c { sections = map_set section (v ∷ vars) c.sections }

unfoldable pub remove : Config → Bytes → Result Config
unfolding after_delete
remove c input = do
  last_dot ← or_err (last_index input b'.') no_section
  let section = take last_dot input
  let var_name = drop (last_dot + 1) input
  vars ← or_err (map_get section c.sections) section_missing
  value ← or_err (map_get var_name vars) variable_missing
  ok (after_delete section (map_delete var_name vars) c)
