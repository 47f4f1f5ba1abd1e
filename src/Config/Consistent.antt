-- ===== src/Config/Consistent.antt =====
-- config.go: the map of sections and the list of their order name the same sections.
use go_repo_dojo.Base.{
  ℕ, ◌+◌, ◌≡◌, refl, ap, ◌∙◌, subst, Bool, true, false, Option, Option-cases, none, some, inl, inr,
  List, [], ◌∷◌, ◌++◌, arith, if◌then◌else◌, Bytes, bytes_eq, bytes_eq_iff, bytes_eq_refl, take,
  drop, ok, or_err, or_err-eq-ok, >>=-eq-ok, no_section, section_missing, variable_missing, map_get,
  map_set, map_delete, map_get-map_set, map_get-map_delete,
}
use go_repo_dojo.Text.{last_index, split}
use go_repo_dojo.Config.{
  Vars, Config, new_config, AddConfigInput, ensure_section, set_variable, add_keys, add, drop_name,
  after_delete, remove,
}
use go_repo_dojo.Config.Syntax.{
  ParsedLine, parsed_empty, parsed_invalid, parsed_section_header, parsed_variable, parse_step,
  parse_lines, parse_config,
}

-- How often a name stands in the order.
unfoldable pub occurrences : Bytes → List Bytes → ℕ
occurrences s [] = 0
occurrences s (t ∷ order) = (if bytes_eq t s then 1 else 0) + occurrences s order

unfoldable pub present {ℓ} : {A : Type ℓ} → Option A → ℕ
present none = 0
present (some a) = 1

-- Every section stands in the order exactly once, and nothing else does.
unfoldable pub IsConsistent : Config → Type 0
IsConsistent c = (s : Bytes) → occurrences s c.section_order ≡ present (map_get s c.sections)

occurrences-append :
    (s t : Bytes) (order : List Bytes)
    → occurrences s (order ++ (t ∷ [])) ≡ occurrences s order + (if bytes_eq t s then 1 else 0)
unfolding occurrences
occurrences-append s t [] = omega arith
occurrences-append s t (u ∷ order) = omega (arith, occurrences-append s t order)

ensure_section-IsConsistent :
    (section : Bytes) (c : Config) → IsConsistent c → IsConsistent (ensure_section section c)
unfolding IsConsistent present ensure_section
ensure_section-IsConsistent section c h s = elim (Option-cases (map_get section c.sections)) [
  | inr (vars, e) ↦ rw (e, ensure_section) (h s)
  | inl e ↦
      rw (e, ensure_section, occurrences-append, map_get-map_set) (go (bytes_eq section s) refl e)
]
  where
    go :
        (b : Bool)
        → bytes_eq section s ≡ b
        → map_get section c.sections ≡ none
        → occurrences s c.section_order + (if b then 1 else 0)
          ≡ present (if b then some [] else map_get s c.sections)
    go true e n = omega (arith, h s, ap present (rw ((bytes_eq_iff section s).0 e) at n))
    go false e n = omega (arith, h s)

-- A section that is there may get other variables.
map_set-IsConsistent :
    (section : Bytes) (vars new : Vars) (c : Config)
    → IsConsistent c
    → map_get section c.sections ≡ some vars
    → IsConsistent (record c { sections = map_set section new c.sections })
unfolding IsConsistent present
map_set-IsConsistent section vars new c h known s =
    rw map_get-map_set (go (bytes_eq section s) refl)
  where
    go :
        (b : Bool)
        → bytes_eq section s ≡ b
        → occurrences s c.section_order ≡ present (if b then some new else map_get s c.sections)
    go true e = omega (arith, h s, ap present (rw ((bytes_eq_iff section s).0 e) at known))
    go false e = h s

ensure_section-known :
    (section : Bytes) (c : Config)
    → (vars : Vars) × (map_get section (ensure_section section c).sections ≡ some vars)
unfolding ensure_section
ensure_section-known section c = elim (Option-cases (map_get section c.sections)) [
  | inr (vars, e) ↦ (vars, rw (e, ensure_section) e)
  | inl e ↦ ([], rw (e, ensure_section, map_get-map_set, bytes_eq_refl) refl)
]

set_variable-IsConsistent :
    (section name value : Bytes) (c : Config)
    → IsConsistent c
    → IsConsistent (set_variable section name value c)
unfolding set_variable
set_variable-IsConsistent section name value c h =
    let (vars, known) = ensure_section-known section c in
    map_set-IsConsistent section vars _ (ensure_section section c)
      (ensure_section-IsConsistent section c h) known

occurrences-drop_name :
    (s t : Bytes) (order : List Bytes)
    → occurrences t order ≡ 1
    → occurrences s (drop_name t order) ≡ (if bytes_eq t s then 0 else occurrences s order)
unfolding occurrences drop_name
occurrences-drop_name s t [] e = absurd (omega (arith, e))
occurrences-drop_name s t (u ∷ order) e =
    ground
      (arith, bytes_eq_iff u t, bytes_eq_iff t s, bytes_eq_iff u s, occurrences-drop_name s t order)

after_delete-IsConsistent :
    (section : Bytes) (vars old : Vars) (c : Config)
    → IsConsistent c
    → map_get section c.sections ≡ some old
    → IsConsistent (after_delete section vars c)
unfolding after_delete IsConsistent present
after_delete-IsConsistent section (v ∷ vars) old c h known =
    map_set-IsConsistent section old (v ∷ vars) c h known
after_delete-IsConsistent section [] old c h known = dropped
  where
    once : occurrences section c.section_order ≡ 1
    once = h section ∙ ap present known

    go :
        (s : Bytes) (b : Bool)
        → (if b then 0 else occurrences s c.section_order)
          ≡ present (if b then none else map_get s c.sections)
    go s true = refl
    go s false = h s

    dropped : IsConsistent (after_delete section [] c)
    dropped s =
        rw (occurrences-drop_name s section c.section_order once, map_get-map_delete)
          (go s (bytes_eq section s))

parse_step-IsConsistent :
    (l : ParsedLine) (c : Config) (current : Bytes)
    → IsConsistent c
    → IsConsistent (parse_step l (c, current)).0
unfolding parse_step
parse_step-IsConsistent parsed_empty c current h = h
parse_step-IsConsistent parsed_invalid c current h = h
parse_step-IsConsistent (parsed_section_header section) c current h =
    ensure_section-IsConsistent section c h
parse_step-IsConsistent (parsed_variable name value) c [] h = h
parse_step-IsConsistent (parsed_variable name value) c (x ∷ current) h =
    set_variable-IsConsistent (x ∷ current) name value c h

parse_lines-IsConsistent :
    (lines : List Bytes) (state : Config × Bytes)
    → IsConsistent state.0
    → IsConsistent (parse_lines lines state).0
unfolding parse_lines
parse_lines-IsConsistent [] state h = h
parse_lines-IsConsistent (line ∷ lines) (c, current) h =
    parse_lines-IsConsistent lines _ (parse_step-IsConsistent _ c current h)

-- Whatever the text is, the sections that `parseConfig` finds stand in the order exactly once each.
pub parse_config-IsConsistent : (content : Bytes) → IsConsistent (parse_config content)
unfolding parse_config IsConsistent present occurrences map_get new_config
parse_config-IsConsistent content =
    parse_lines-IsConsistent (split content b'\n') (new_config, []) (λ s. refl)

-- An `Add` that succeeds keeps the map and the order of the sections in step.
pub add-IsConsistent :
    (c : Config) (input : AddConfigInput) {c' : Config}
    → IsConsistent c
    → add c input ≡ ok c'
    → IsConsistent c'
unfolding add
add-IsConsistent c input h e =
    let ((section, name), k, f) =
      >>=-eq-ok (add_keys input.name (last_index input.name b'.')) _ e in
    subst IsConsistent (cc f) (set_variable-IsConsistent section name input.value c h)

-- A `Remove` that succeeds keeps them in step as well.
pub remove-IsConsistent :
    (c : Config) (input : Bytes) {c' : Config}
    → IsConsistent c
    → remove c input ≡ ok c'
    → IsConsistent c'
unfolding remove
remove-IsConsistent c input h e =
    let (last_dot, d, e1) = >>=-eq-ok (or_err (last_index input b'.') no_section) _ e in
    let section = take last_dot input in
    let (vars, k, e2) = >>=-eq-ok (or_err (map_get section c.sections) section_missing) _ e1 in
    let (value, v, e3) =
      >>=-eq-ok (or_err (map_get (drop (last_dot + 1) input) vars) variable_missing) _ e2 in
    subst IsConsistent (cc e3) (
      after_delete-IsConsistent section (map_delete (drop (last_dot + 1) input) vars) vars c h
        (or_err-eq-ok (map_get section c.sections) section_missing k))
