-- ===== src/Diff/Script.antt =====
-- Edit scripts: the edits that lead through two texts from their starts to their ends. What `get`
-- finds in one are pairs of equal lines, in order.
use go_repo_dojo.Base.{
  ℕ, suc, ◌≤◌, ◌<◌, ◌≡◌, refl, sym, ◌∙◌, subst, false, ◌⊎◌, inl, inr, none, some, List, [], ◌∷◌,
  ◌==◌, ltb, if◌then◌else◌, Bytes, length, get_elem?, arith,
}
use go_repo_dojo.Diff.{EditKind, edit_eql, edit_ins, edit_del, Edit, is_eql, get_match}

-- Where an edit leads to in either text.
abbrev pub past_old : EditKind → ℕ → ℕ
past_old edit_ins x = x
past_old _ x = suc x

abbrev pub past_new : EditKind → ℕ → ℕ
past_new edit_del y = y
past_new _ y = suc y

-- One line in both texts.
abbrev pub SameLine : List Bytes → List Bytes → ℕ → ℕ → Type 0
SameLine old new x y =
    (line : Bytes) × (get_elem? old x ≡ some line) × (get_elem? new y ≡ some line)

abbrev pub IsEdit : List Bytes → List Bytes → ℕ → ℕ → Edit → EditKind → Type 0
IsEdit old new x y e edit_eql = (e.old_line_num ≡ x) × ((e.new_line_num ≡ y) × SameLine old new x y)
IsEdit old new x y e edit_del = (e.old_line_num ≡ x) × (x < length old)
IsEdit old new x y e edit_ins = (e.new_line_num ≡ y) × (y < length new)

abbrev pub IsScript : List Bytes → List Bytes → ℕ → ℕ → List Edit → Type 0
IsScript old new x y [] = (x ≡ length old) × (y ≡ length new)
IsScript old new x y (e ∷ es) =
    IsEdit old new x y e e.kind × IsScript old new (past_old e.kind x) (past_new e.kind y) es

kind_cases : (k : EditKind) → (k ≡ edit_eql) ⊎ (is_eql k ≡ false)
unfolding is_eql
kind_cases edit_eql = inl refl
kind_cases edit_ins = inr refl
kind_cases edit_del = inr refl

past-le : (k : EditKind) (x y : ℕ) → (x ≤ past_old k x) × (y ≤ past_new k y)
past-le edit_eql x y = (omega arith, omega arith)
past-le edit_ins x y = (omega arith, omega arith)
past-le edit_del x y = (omega arith, omega arith)

get_match-eql :
    (old : ℕ) (e : Edit) (es : List Edit)
    → e.kind ≡ edit_eql
    → get_match old (e ∷ es) ≡ (
        if ltb e.old_line_num old
        then get_match old es
        else if e.old_line_num == old
        then some e.new_line_num
        else none)
unfolding get_match is_eql
get_match-eql old e es k = rw k

get_match-other :
    (old : ℕ) (e : Edit) (es : List Edit)
    → is_eql e.kind ≡ false
    → get_match old (e ∷ es) ≡ get_match old es
unfolding get_match
get_match-other old e es k = rw k

-- A match in a script that begins with equal lines.
eql_cases :
    (o : ℕ) (e : Edit) (es : List Edit) {p : ℕ}
    → e.kind ≡ edit_eql
    → get_match o (e ∷ es) ≡ some p
    → ((e.old_line_num ≡ o) × (e.new_line_num ≡ p))
      ⊎ ((e.old_line_num < o) × (get_match o es ≡ some p))
eql_cases o e es {p} k h = let h' = sym (get_match-eql o e es k) ∙ h in ground (arith, h')

module _ (old new : List Bytes) where
  -- A match lies behind the start, and is one line in both texts.
  pub get_match-SameLine :
      (x y : ℕ) (es : List Edit) (o : ℕ) {p : ℕ}
      → IsScript old new x y es
      → get_match o es ≡ some p
      → (x ≤ o) × ((y ≤ p) × SameLine old new o p)
  unfolding get_match
  get_match-SameLine x y [] o s h = absurd (cc h)
  get_match-SameLine x y (e ∷ es) o {p} (edit, rest) h = elim (kind_cases e.kind) [
    | inr k ↦
        let later =
          get_match-SameLine (past_old e.kind x) (past_new e.kind y) es o rest
            (sym (get_match-other o e es k) ∙ h) in
        let (behind, (behind', line)) = later in
        (omega (arith, past-le e.kind x y), (omega (arith, past-le e.kind x y), line))
    | inl k ↦
        let (at_x, (at_y, line)) = subst (IsEdit old new x y e) k edit in
        let rest' =
          subst (λ (c : EditKind). IsScript old new (past_old c x) (past_new c y) es) k rest in
        elim (eql_cases o e es k h) [
          | inl (here, there) ↦
              let ex : x ≡ o = sym at_x ∙ here in
              let ey : y ≡ p = sym at_y ∙ there in
              (
                omega arith,
                (
                  omega arith,
                  subst (λ (c : ℕ). SameLine old new c p) ex
                      (subst (λ (c : ℕ). SameLine old new x c) ey line),
                ),
              )
          | inr (past, more) ↦
              let (behind, (behind', line')) = get_match-SameLine (suc x) (suc y) es o rest' more in
              (omega arith, (omega arith, line'))
        ]
  ]

  -- Later lines match later ones.
  pub get_match_mono :
      (x y : ℕ) (es : List Edit) (o o' : ℕ) {p p' : ℕ}
      → IsScript old new x y es
      → get_match o es ≡ some p
      → get_match o' es ≡ some p'
      → o < o'
      → p < p'
  unfolding get_match
  get_match_mono x y [] o o' s h h' lt = absurd (cc h)
  get_match_mono x y (e ∷ es) o o' {p} {p'} (edit, rest) h h' lt = elim (kind_cases e.kind) [
    | inr k ↦
        get_match_mono (past_old e.kind x) (past_new e.kind y) es o o' rest
          (sym (get_match-other o e es k) ∙ h) (sym (get_match-other o' e es k) ∙ h') lt
    | inl k ↦
        let (at_x, (at_y, line)) = subst (IsEdit old new x y e) k edit in
        let rest' =
          subst (λ (c : EditKind). IsScript old new (past_old c x) (past_new c y) es) k rest in
        elim (eql_cases o' e es k h') [
          | inl (here', there') ↦
              let (behind, more) = get_match-SameLine x y (e ∷ es) o (edit, rest) h in
              absurd (omega arith)
          | inr (past', more') ↦
              let (behind', (behind'', line')) =
                get_match-SameLine (suc x) (suc y) es o' rest' more' in
              elim (eql_cases o e es k h) [
                | inl (here, there) ↦ omega arith
                | inr (past, more) ↦ get_match_mono (suc x) (suc y) es o o' rest' more more' lt
              ]
        ]
  ]
