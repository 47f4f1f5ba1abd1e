-- ===== src/Config/Lookup.antt =====
-- config.go: what a lookup gives after a variable was set, and after `Remove`.
use go_repo_dojo.Base.{
  ◌+◌, ◌≡◌, refl, sym, ap, ◌∙◌, Bool, true, false, ◌&&◌, Option, Option-cases, none, some, inl, inr,
  [], ◌∷◌, ◌++◌, if◌then◌else◌, Bytes, bytes_eq, bytes_eq_iff, length, take-length_append,
  drop_past, Result, ok, map_get, map_set, map_delete, map_get-map_set, map_get-map_delete,
}
use go_repo_dojo.Text.{last_index}
use go_repo_dojo.Text.Laws.{Lacks, last_index-append}
use go_repo_dojo.Config.{
  Vars, Config, AddConfigInput, get_section, ensure_section, set_variable, add_keys, add,
  after_delete, remove, vars_of,
}

-- A variable of a section; `none` if either is missing.
unfoldable pub lookup : Config → Bytes → Bytes → Option Bytes
lookup c s n = map_get n (vars_of (get_section c s))

lookup-ensure_section :
    (section s n : Bytes) (c : Config) → lookup (ensure_section section c) s n ≡ lookup c s n
unfolding lookup get_section ensure_section vars_of
lookup-ensure_section section s n c = elim (Option-cases (map_get section c.sections)) [
  | inr (vars, e) ↦ rw (e, ensure_section) refl
  | inl e ↦ rw (e, ensure_section, map_get-map_set) (go (bytes_eq section s) refl e)
]
  where
    go :
        (b : Bool)
        → bytes_eq section s ≡ b
        → map_get section c.sections ≡ none
        → map_get n (vars_of (if b then some [] else map_get s c.sections))
          ≡ map_get n (vars_of (map_get s c.sections))
    go true e k =
        ap (λ (o : Option Vars). map_get n (vars_of o))
          (sym (rw ((bytes_eq_iff section s).0 e) at k))
    go false e k = refl

-- A variable is set in a section's variables, and these are stored.
lookup-map_set :
    (section name value s n : Bytes) (c : Config)
    → lookup
        (record c {
          sections =
              map_set section
                (map_set name value (vars_of (map_get section c.sections)))
                c.sections;
        })
        s
        n
      ≡ (if bytes_eq section s && bytes_eq name n then some value else lookup c s n)
unfolding lookup get_section vars_of
lookup-map_set section name value s n c = rw map_get-map_set (go (bytes_eq section s) refl)
  where
    go :
        (b : Bool)
        → bytes_eq section s ≡ b
        → map_get n (
            vars_of (
              if b
              then some (map_set name value (vars_of (map_get section c.sections)))
              else map_get s c.sections))
          ≡ (if b && bytes_eq name n then some value else lookup c s n)
    go true e = rw (sym ((bytes_eq_iff section s).0 e), map_get-map_set) refl
    go false e = refl

pub lookup-set_variable :
    (section name value s n : Bytes) (c : Config)
    → lookup (set_variable section name value c) s n
      ≡ (if bytes_eq section s && bytes_eq name n then some value else lookup c s n)
unfolding set_variable
lookup-set_variable section name value s n c =
    lookup-map_set section name value s n (ensure_section section c)
    ∙ ap (λ (o : Option Bytes). if bytes_eq section s && bytes_eq name n then some value else o)
        (lookup-ensure_section section s n c)

-- The keys under which `Add` stores a name: the section and the variable, without a value.
unfoldable pub config_keys : Bytes → Result (Bytes × Bytes)
unfolding add_keys
config_keys input = add_keys input (last_index input b'.')

pub add_keyed :
    (c : Config) (input : AddConfigInput) {section name : Bytes}
    → config_keys input.name ≡ ok (section, name)
    → add c input ≡ ok (set_variable section name input.value c)
unfolding add config_keys
add_keyed c input e = rw e refl

lookup-after_delete :
    (section s n name : Bytes) (vars new : Vars) (c : Config)
    → map_get section c.sections ≡ some vars
    → map_delete name vars ≡ new
    → lookup (after_delete section new c) s n
      ≡ (if bytes_eq section s && bytes_eq name n then none else lookup c s n)
unfolding lookup get_section vars_of after_delete
lookup-after_delete section s n name vars new c known e = cases new e
  where
    left : lookup c section n ≡ map_get n vars
    left = rw known refl

    here : map_get n (map_delete name vars) ≡ (if bytes_eq name n then none else lookup c section n)
    here =
        map_get-map_delete name n vars
        ∙ ap (λ (o : Option Bytes). if bytes_eq name n then none else o) (sym left)

    go :
        (new : Vars) (b : Bool)
        → map_delete name vars ≡ new
        → bytes_eq section s ≡ b
        → map_get n (vars_of (if b then some new else map_get s c.sections))
          ≡ (if b && bytes_eq name n then none else lookup c s n)
    go new true e k = rw (sym ((bytes_eq_iff section s).0 k), sym e) here
    go new false e k = refl

    gone :
        (b : Bool)
        → map_get n (vars_of (if b then none else map_get s c.sections))
          ≡ map_get n (vars_of (if b then some [] else map_get s c.sections))
    gone true = refl
    gone false = refl

    cases :
        (new : Vars)
        → map_delete name vars ≡ new
        → lookup (after_delete section new c) s n
          ≡ (if bytes_eq section s && bytes_eq name n then none else lookup c s n)
    cases (v ∷ new) e = rw map_get-map_set (go (v ∷ new) (bytes_eq section s) e refl)
    cases [] e =
        rw map_get-map_delete (gone (bytes_eq section s) ∙ go [] (bytes_eq section s) e refl)

-- A variable that a lookup finds stands in the map of its section.
found :
    (c : Config) (s n value : Bytes)
    → lookup c s n ≡ some value
    → (vars : Vars) × (map_get s c.sections ≡ some vars) × (map_get n vars ≡ some value)
unfolding lookup get_section vars_of map_get
found c s n value e = elim (Option-cases (map_get s c.sections)) [
  | inl k ↦ absurd (cc (rw k at e))
  | inr (vars, k) ↦ (vars, k, rw k at e)
]

-- `Remove` of a variable that is there, by the keys of its section and its name, takes it away, and no
-- other. The name has no dot.
pub lookup-remove :
    (c : Config) (section name value s n : Bytes)
    → Lacks b'.' name
    → lookup c section name ≡ some value
    → (c' : Config) × (remove c (section ++ (b'.' ∷ name)) ≡ ok c')
      × (lookup c' s n ≡ (if bytes_eq section s && bytes_eq name n then none else lookup c s n))
unfolding remove
lookup-remove c section name value s n lacks e =
    let (vars, k, v) = found c section name value e in
    (
      after_delete section (map_delete name vars) c,
      rw
          (
            last_index-append section name b'.' lacks,
            take-length_append section (b'.' ∷ name) (length section) refl,
            drop_past section b'.' name (length section + 1) refl,
            k,
            v,
          )
          refl,
      lookup-after_delete section s n name vars _ c k refl,
    )
