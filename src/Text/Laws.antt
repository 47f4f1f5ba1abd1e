-- ===== src/Text/Laws.antt =====
-- Laws of searching, splitting and joining.
use go_repo_dojo.Base.{
  ℕ, ◌≡◌, ◌≢◌, refl, ap, ◌∙◌, inl, inr, none, some, List, [], ◌∷◌, ◌++◌, true, arith, Bytes, ◌==◌,
  Bool-cases, length, All, drop,
}
use go_repo_dojo.Text.{index_byte, last_index, has_prefix, onto_first, split, join}

abbrev pub Lacks : ℕ → Bytes → Type 0
Lacks c = All (λ x. x ≢ c)

-- The first occurrence of a byte is found where it stands.
pub index_byte-append :
    (xs r : Bytes) (c : ℕ) → Lacks c xs → index_byte (xs ++ (c ∷ r)) c ≡ some (length xs)
unfolding index_byte
index_byte-append [] r c h = ground arith
index_byte-append (x ∷ xs) r c (hx, hxs) = ground (arith, index_byte-append xs r c hxs)

-- The last one, if nothing behind it is the byte.
pub index_byte-Lacks : (xs : Bytes) (c : ℕ) → Lacks c xs → index_byte xs c ≡ none
unfolding index_byte
index_byte-Lacks [] c h = refl
index_byte-Lacks (x ∷ xs) c (hx, hxs) = ground (arith, index_byte-Lacks xs c hxs)

pub last_index-Lacks : (xs : Bytes) (c : ℕ) → Lacks c xs → last_index xs c ≡ none
unfolding last_index
last_index-Lacks [] c h = refl
last_index-Lacks (x ∷ xs) c (hx, hxs) = ground (arith, last_index-Lacks xs c hxs)

pub last_index-append :
    (xs r : Bytes) (c : ℕ) → Lacks c r → last_index (xs ++ (c ∷ r)) c ≡ some (length xs)
unfolding last_index
last_index-append [] r c h = ground (arith, last_index-Lacks r c h)
last_index-append (x ∷ xs) r c h = ground (arith, last_index-append xs r c h)

pub has_prefix-append : (p s : Bytes) → has_prefix (p ++ s) p ≡ true
unfolding has_prefix
has_prefix-append [] s = refl
has_prefix-append (x ∷ p) s = ground (arith, has_prefix-append p s)

pub has_prefix→append : (s p : Bytes) → has_prefix s p ≡ true → s ≡ p ++ drop (length p) s
unfolding has_prefix
has_prefix→append s [] h = refl
has_prefix→append [] (x ∷ p) h = cc
has_prefix→append (y ∷ s) (x ∷ p) h = ground (arith, has_prefix→append s p)

pub split-ne-nil : (s : Bytes) (sep : ℕ) → split s sep ≢ []
unfolding split
split-ne-nil [] sep = λ e. cc
split-ne-nil (c ∷ s) sep = elim (Bool-cases (c == sep)) [
  | inl h ↦ rw h (λ e. cc)
  | inr h ↦ rw h (onto (split s sep))
]
  where
    onto : (ps : List Bytes) → onto_first c ps ≢ []
    onto [] e = cc
    onto (p ∷ ps) e = cc

join-onto_first : (c : ℕ) (ps : List Bytes) (sep : ℕ) → join (onto_first c ps) sep ≡ c ∷ join ps sep
unfolding join
join-onto_first c [] sep = refl
join-onto_first c (p ∷ []) sep = refl
join-onto_first c (p ∷ q ∷ ps) sep = refl

join-nil-cons : (ps : List Bytes) (sep : ℕ) → ps ≢ [] → join ([] ∷ ps) sep ≡ sep ∷ join ps sep
unfolding join
join-nil-cons [] sep h = absurd (h refl)
join-nil-cons (p ∷ ps) sep h = refl

-- Joining the parts of a text with the separator gives the text back.
pub join-split : (s : Bytes) (sep : ℕ) → join (split s sep) sep ≡ s
unfolding split
join-split [] sep = unfold join in refl
join-split (c ∷ s) sep = elim (Bool-cases (c == sep)) [
  | inl h ↦
      let e : c ≡ sep = ground arith in
      rw h (join-nil-cons _ sep (split-ne-nil s sep) ∙ rw (join-split s sep, e))
  | inr h ↦ rw h (join-onto_first c _ sep ∙ ap (◌∷◌ c) (join-split s sep))
]

split-Lacks : (p : Bytes) (sep : ℕ) → Lacks sep p → split p sep ≡ p ∷ []
unfolding split
split-Lacks [] sep h = refl
split-Lacks (c ∷ p) sep (hc, hp) = ground (arith, split-Lacks p sep hp)

pub split-append :
    (p s : Bytes) (sep : ℕ) → Lacks sep p → split (p ++ (sep ∷ s)) sep ≡ p ∷ split s sep
unfolding split
split-append [] s sep h = ground arith
split-append (c ∷ p) s sep (hc, hp) = ground (arith, split-append p s sep hp)

-- Splitting what was joined gives the parts back, if there are any and none holds the separator.
pub split-join :
    (p : Bytes) (ps : List Bytes) (sep : ℕ)
    → Lacks sep p
    → All (Lacks sep) ps
    → split (join (p ∷ ps) sep) sep ≡ p ∷ ps
unfolding join
split-join p [] sep h hs = split-Lacks p sep h
split-join p (q ∷ ps) sep h (hq, hps) =
    split-append p _ sep h ∙ ap (◌∷◌ p) (split-join q ps sep hq hps)
