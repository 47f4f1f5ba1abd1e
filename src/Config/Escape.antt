-- ===== src/Config/Escape.antt =====
-- config.go: the name of a subsection, escaped by `Write` and taken back by the parser.
use go_repo_dojo.Base.{
  zero, suc, ℕ, ◌≡◌, ◌≢◌, refl, ap, ◌∙◌, Bool-cases, inl, inr, ◌||◌, [], ◌∷◌, ◌++◌, ◌==◌, arith,
  Bytes,
}
use go_repo_dojo.Text.Laws.{Lacks}
use go_repo_dojo.Config.Syntax.{
  escape_config_str, escape_runes, escape_rune, rune_width, escape_char, unescape_config_str,
}

unescape_plain :
    (c : ℕ) (s : Bytes) → c ≢ b'\\' → unescape_config_str (c ∷ s) ≡ c ∷ unescape_config_str s
unfolding unescape_config_str
unescape_plain c [] ne = refl
unescape_plain c (d ∷ s) ne = ground arith

-- Unescaping takes one escaped character back, in front of anything.
unescape-escape_char :
    (c : ℕ) (s : Bytes)
    → c ≢ b'\\'
    → unescape_config_str (escape_char c ++ s) ≡ c ∷ unescape_config_str s
unfolding escape_char unescape_config_str
unescape-escape_char c s ne = elim (Bool-cases (c == b'"' || c == b'\'')) [
  | inl q ↦ rw (q, q) refl
  | inr q ↦ elim (Bool-cases (c == b'\n')) [
    | inl n ↦ rw (q, n) (ap (λ (t : ℕ). t ∷ unescape_config_str s) (ground arith))
    | inr n ↦ elim (Bool-cases (c == b'\r')) [
      | inl r ↦ rw (q, n, r) (ap (λ (t : ℕ). t ∷ unescape_config_str s) (ground arith))
      | inr r ↦ elim (Bool-cases (c == b'\t')) [
        | inl t ↦ rw (q, n, r, t) (ap (λ (x : ℕ). x ∷ unescape_config_str s) (ground arith))
        | inr t ↦ rw (q, n, r, t) (unescape_plain c s ne)
      ]
    ]
  ]
]

-- What a character's width says of the bytes behind its first.
Begins : ℕ → (ℕ → Type 0) → Type 0
Begins zero P = ⊥
Begins (suc more) P = P more

-- The rest of a character, and then characters to the end: text that is valid UTF-8.
unfoldable pub Continues : Bytes → ℕ → Type 0
unfolding Begins
Continues [] zero = Unit {0}
Continues [] (suc more) = ⊥
Continues (c ∷ s) (suc more) = Continues s more
Continues (c ∷ s) zero = Begins (rune_width (c ∷ s)) (Continues s)

abbrev pub IsUtf8 : Bytes → Type 0
IsUtf8 s = Continues s 0

unescape-escape_rune :
    (n c : ℕ) (s : Bytes)
    → c ≢ b'\\'
    → Begins n (Continues s)
    → ((more : ℕ) → Continues s more → unescape_config_str (escape_runes more s) ≡ s)
    → unescape_config_str (escape_rune n c (λ more'. escape_runes more' s)) ≡ c ∷ s
unfolding Begins escape_rune
unescape-escape_rune zero c s ne h next = absurd h
unescape-escape_rune (suc more) c s ne h next =
    unescape-escape_char c (escape_runes more s) ne ∙ ap (◌∷◌ c) (next more h)

unescape-escape_runes :
    (s : Bytes) (more : ℕ)
    → Lacks b'\\' s
    → Continues s more
    → unescape_config_str (escape_runes more s) ≡ s
unfolding escape_runes Continues
unescape-escape_runes [] zero h u = unfold unescape_config_str in refl
unescape-escape_runes [] (suc more) h u = absurd u
unescape-escape_runes (c ∷ s) (suc more) (hc, hs) u =
    unescape_plain c (escape_runes more s) hc ∙ ap (◌∷◌ c) (unescape-escape_runes s more hs u)
unescape-escape_runes (c ∷ s) zero (hc, hs) u =
    unescape-escape_rune (rune_width (c ∷ s)) c s hc u (λ more v. unescape-escape_runes s more hs v)

-- Text that is valid UTF-8 and has no backslash is read back as it was before it was escaped.
pub unescape_config_str-escape_config_str :
    (s : Bytes) → IsUtf8 s → Lacks b'\\' s → unescape_config_str (escape_config_str s) ≡ s
unfolding escape_config_str
unescape_config_str-escape_config_str s u h = unescape-escape_runes s 0 h u
