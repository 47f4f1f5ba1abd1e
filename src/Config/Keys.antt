-- ===== src/Config/Keys.antt =====
-- config.go: the keys that `Add` makes of a name, and what a lookup gives after it.
use go_repo_dojo.Base.{
  some, ◌&&◌, if◌then◌else◌, bytes_eq_refl, ◌+◌, ◌≡◌, ◌≢◌, refl, sym, true, [], ◌∷◌, ◌++◌,
  append_assoc, Bytes, bytes_eq, length, take-length_append, drop_past, ok,
}
use go_repo_dojo.Text.{index_byte}
use go_repo_dojo.Text.Laws.{Lacks, index_byte-Lacks, index_byte-append, last_index-append}
use go_repo_dojo.Config.{
  Config, add, set_variable, to_lower, valid_name, section_key, section_parts, add_keys,
}
use go_repo_dojo.Config.Lookup.{lookup, lookup-set_variable, add_keyed, config_keys}

section_parts-append :
    (main sub : Bytes)
    → Lacks b'.' main
    → section_parts (main ++ (b'.' ∷ sub)) (index_byte (main ++ (b'.' ∷ sub)) b'.') ≡ (main, sub)
unfolding section_parts
section_parts-append main sub lacks =
    rw
      (
        index_byte-append main sub b'.' lacks,
        take-length_append main (b'.' ∷ sub) (length main) refl,
        drop_past main b'.' sub (length main + 1) refl,
      )
      refl

subsection_key :
    (main sub : Bytes) → sub ≢ [] → section_key (main, sub) ≡ to_lower main ++ (b'.' ∷ sub)
unfolding section_key bytes_eq
subsection_key main [] ne = absurd (ne refl)
subsection_key main (x ∷ sub) ne = refl

-- The first part ends at the first dot, the last one begins behind the last dot. What lies between
-- them keeps its letters and its dots.
pub config_keys_subsection :
    (main sub var_name : Bytes)
    → Lacks b'.' main
    → Lacks b'.' var_name
    → sub ≢ []
    → valid_name main ≡ true
    → valid_name var_name ≡ true
    → config_keys (main ++ (b'.' ∷ (sub ++ (b'.' ∷ var_name))))
      ≡ ok (to_lower main ++ (b'.' ∷ sub), to_lower var_name)
unfolding config_keys add_keys
config_keys_subsection main sub var_name lm lv ne vm vv =
    rw
      (
        sym (append_assoc main (b'.' ∷ sub) (b'.' ∷ var_name)),
        last_index-append (main ++ (b'.' ∷ sub)) var_name b'.' lv,
        take-length_append (main ++ (b'.' ∷ sub)) (b'.' ∷ var_name) (length (main ++ (b'.' ∷ sub)))
            refl,
        drop_past (main ++ (b'.' ∷ sub)) b'.' var_name (length (main ++ (b'.' ∷ sub)) + 1) refl,
        section_parts-append main sub lm,
        vm,
        vv,
        subsection_key main sub ne,
      )
      refl

-- A name of two parts, for an empty `sub`, or of three.
unfoldable pub dotted : Bytes → Bytes → Bytes → Bytes
dotted main [] var_name = main ++ (b'.' ∷ var_name)
dotted main (x ∷ sub) var_name = main ++ (b'.' ∷ ((x ∷ sub) ++ (b'.' ∷ var_name)))

-- The section that it belongs to.
unfoldable pub section_of : Bytes → Bytes → Bytes
section_of main [] = to_lower main
section_of main (x ∷ sub) = to_lower main ++ (b'.' ∷ x ∷ sub)

config_keys-dotted :
    (main sub var_name : Bytes)
    → Lacks b'.' main
    → Lacks b'.' var_name
    → valid_name main ≡ true
    → valid_name var_name ≡ true
    → config_keys (dotted main sub var_name) ≡ ok (section_of main sub, to_lower var_name)
unfolding dotted section_of
config_keys-dotted main [] var_name lm lv vm vv =
    unfold config_keys add_keys section_parts section_key bytes_eq in
    rw
      (
        last_index-append main var_name b'.' lv,
        take-length_append main (b'.' ∷ var_name) (length main) refl,
        drop_past main b'.' var_name (length main + 1) refl,
        index_byte-Lacks main b'.' lm,
        vm,
        vv,
      )
      refl
config_keys-dotted main (x ∷ sub) var_name lm lv vm vv =
    config_keys_subsection main (x ∷ sub) var_name lm lv (λ e. absurd (cc e)) vm vv

-- A name is a section, possibly a subsection with dots of its own, and a variable, where the section and
-- the variable are made of letters, digits and dashes. `Add` sets that variable of that section, both
-- in lower case and the subsection as it is, to the value. Every other variable keeps what it had.
pub lookup-add :
    (c : Config) (main sub var_name value s n : Bytes)
    → Lacks b'.' main
    → Lacks b'.' var_name
    → valid_name main ≡ true
    → valid_name var_name ≡ true
    → (c' : Config) × (add c (record { name = dotted main sub var_name; value = value }) ≡ ok c')
      × (lookup c' (section_of main sub) (to_lower var_name) ≡ some value)
      × (lookup c' s n ≡ (
          if bytes_eq (section_of main sub) s && bytes_eq (to_lower var_name) n
          then some value
          else lookup c s n))
lookup-add c main sub var_name value s n lm lv vm vv = (
  set_variable (section_of main sub) (to_lower var_name) value c,
  add_keyed c (record { name = dotted main sub var_name; value = value })
      (config_keys-dotted main sub var_name lm lv vm vv),
  rw (lookup-set_variable, bytes_eq_refl (section_of main sub), bytes_eq_refl (to_lower var_name))
      refl,
  lookup-set_variable (section_of main sub) (to_lower var_name) value s n c,
)
