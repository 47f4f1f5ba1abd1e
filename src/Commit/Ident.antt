-- ===== src/Commit/Ident.antt =====
-- object.go: the time in an author or committer line.
use go_repo_dojo.Base.{
  ℕ, zero, suc, ◌-◌, ◌^◌, ◌≤◌, ◌≡◌, ◌≢◌, refl, ap, ◌∙◌, Bool-cases, inl, inr, false, ◌==◌, some,
  List, [], ◌∷◌, ◌++◌, arith, Bytes, codes, length, length-append, get_elem?, ltb,
}
use go_repo_dojo.Number.{format_uint, parse_uint}
use go_repo_dojo.Number.RoundTrip.{parse_uint-format_uint, format_uint-Lacks}
use go_repo_dojo.Text.{split, onto_first}
use go_repo_dojo.Text.Laws.{split-ne-nil, split-append}
use go_repo_dojo.Commit.{ident, parse_ident_timestamp, timestamp_of, or_zero}

split-append_sep : (xs ys : Bytes) (c : ℕ) → split (xs ++ (c ∷ ys)) c ≡ split xs c ++ split ys c
unfolding split
split-append_sep [] ys c = ground arith
split-append_sep (x ∷ xs) ys c = elim (Bool-cases (x == c)) [
  | inl e ↦ rw e (ap (◌∷◌ []) (split-append_sep xs ys c))
  | inr e ↦ rw (e, split-append_sep xs ys c) (onto (split xs c) (split-ne-nil xs c))
]
  where
    onto :
        (ps : List Bytes)
        → ps ≢ []
        → onto_first x (ps ++ split ys c) ≡ onto_first x ps ++ split ys c
    onto [] ne = absurd (ne refl)
    onto (p ∷ ps) ne = refl

at_length :
    (ps : List Bytes) (d : Bytes) (zs : List Bytes) (n : ℕ)
    → n ≡ length ps
    → get_elem? (ps ++ (d ∷ zs)) n ≡ some d
at_length [] d zs zero e = refl
at_length [] d zs (suc n) e = absurd (omega (arith, e))
at_length (p ∷ ps) d zs zero e = absurd (omega (arith, e))
at_length (p ∷ ps) d zs (suc n) e = at_length ps d zs n (omega (arith, e))

last_but_one :
    (ps : List Bytes) (d z : Bytes)
    → timestamp_of (ps ++ (d ∷ z ∷ [])) ≡ or_zero (parse_uint 10 64 d)
unfolding timestamp_of
last_but_one ps d z =
    rw
      (
        at_length ps d (z ∷ []) (length (ps ++ (d ∷ z ∷ [])) - 2)
            (omega (arith, length-append ps (d ∷ z ∷ []))),
        timestamp_of,
      )
      refl

-- A time that is a uint64 is read back from the line it was written in, whatever the name is.
pub parse_ident_timestamp-ident :
    (who : Bytes) (ts : ℕ) → ts ≤ 2 ^ 64 - 1 → parse_ident_timestamp (ident who ts) ≡ ts
unfolding parse_ident_timestamp ident
parse_ident_timestamp-ident who ts h =
    rw (parts, enough (split who b' ') (split-ne-nil who b' '))
      (last_but_one (split who b' ') (format_uint 10 ts) (codes "+0000")
        ∙ rw (parse_uint-format_uint 10 64 ts (omega arith) (omega arith) h (omega arith))
            (unfold or_zero in refl))
  where
    behind :
        split (format_uint 10 ts ++ codes " +0000") b' ' ≡ format_uint 10 ts ∷ codes "+0000" ∷ []
    behind =
        split-append (format_uint 10 ts) (codes "+0000") b' '
          (format_uint-Lacks 10 ts b' ' (omega arith) (omega arith) (omega arith))
        ∙ unfold split in refl

    parts :
        split (who ++ (b' ' ∷ (format_uint 10 ts ++ codes " +0000"))) b' '
        ≡ split who b' ' ++ (format_uint 10 ts ∷ codes "+0000" ∷ [])
    parts = split-append_sep who _ b' ' ∙ ap (λ (x : List Bytes). split who b' ' ++ x) behind

    enough :
        (ps : List Bytes)
        → ps ≢ []
        → ltb (length (ps ++ (format_uint 10 ts ∷ codes "+0000" ∷ []))) 3 ≡ false
    enough [] ne = absurd (ne refl)
    enough (p ∷ ps) ne = ground (arith, length-append ps (format_uint 10 ts ∷ codes "+0000" ∷ []))
