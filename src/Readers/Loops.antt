-- ===== src/Readers/Loops.antt =====
-- The loops over a reader that keeps its contract.
use go_repo_dojo.Base.{
  Option, ℕ, zero, suc, ◌+◌, ◌-◌, ◌≤◌, ◌<◌, ◌≡◌, refl, sym, ap, ◌∙◌, subst, Result, inl, inr,
  Bool-cases, [], ◌∷◌, ◌++◌, append-nil, append_assoc, arith, if◌then◌else◌, stuck, ◌==◌, Bytes,
  length, take, drop, Error, ok, err, take-append-take_rest, drop-drop,
}
use go_repo_dojo.Readers.{ReadAt, unless_failed, piece, fill, skip_loop}

piece_bounds :
    (left limit : ℕ) → 0 < left → 0 < limit → (0 < piece left limit) × (piece left limit ≤ left)
unfolding piece
piece_bounds left limit h k = ground arith

unless_failed-read {ℓ} :
    {S : Type 0} {A : Type ℓ} (b : Bytes) (e : Option Error) (s : S) (next : Bytes → S → Result A)
    → 0 < length b
    → unless_failed (b, e, s) next ≡ next b s
unfolding unless_failed
unless_failed-read [] e s next h = absurd (omega arith)
unless_failed-read (c ∷ b) e s next h = refl

-- A read of the first bytes and of those behind them.
pub take_read :
    (p n : ℕ) (b content : Bytes)
    → b ≡ take (length b) (drop p content)
    → length b ≤ n
    → b ++ take (n - length b) (drop (p + length b) content) ≡ take n (drop p content)
take_read p n b content e h =
    let rest = drop p content in
    let m = n - length b in
    ap (λ (t : Bytes). b ++ take m t) (sym (drop-drop p (length b) (p + length b) content refl))
    ∙ ap (λ (t : Bytes). t ++ take m (drop (length b) rest)) e
    ∙ ap (λ (k : ℕ). take (length b) rest ++ take m (drop k rest)) (ap length e)
    ∙ take-append-take_rest (length b) m n rest (omega arith)

nothing_left : (left : ℕ) (out rest : Bytes) → left ≡ 0 → out ≡ out ++ take left rest
nothing_left left out rest z = rw z (sym (append-nil out))

module _ {S : Type 0} (read : ℕ → S → Bytes × Option Error × S) (content : Bytes)
    (At : S → ℕ → Type 0) (read_at : ReadAt read content At) where
  -- With a reader that keeps the contract, and as many bytes behind its position as are wanted, the loop
  -- that fills a buffer ends and gives the bytes from the position on.
  pub fill_lem :
      (fuel left p : ℕ) (s : S) (out : Bytes)
      → At s p
      → p + left ≤ length content
      → left ≤ fuel
      → (s' : S) × (fill read fuel left s out ≡ ok (out ++ take left (drop p content), s'))
        × At s' (p + left)
  unfolding fill
  fill_lem zero left p s out h fits enough =
      let z : left ≡ 0 = omega arith in
      (
        s,
        ap (λ (t : ℕ). if t == 0 then ok (out, s) else err stuck) z
            ∙ ap (λ (t : Bytes). ok (t, s)) (nothing_left left out (drop p content) z),
        subst (At s) (omega arith) h,
      )
  fill_lem (suc fuel) left p s out h fits enough = elim (Bool-cases (left == 0)) [
    | inl z ↦
        let none_left : left ≡ 0 = ground arith in
        (
          s,
          rw z (ap (λ (t : Bytes). ok (t, s)) (nothing_left left out (drop p content) none_left)),
          subst (At s) (omega arith) h,
        )
    | inr nz ↦
        let (low, high) = piece_bounds left 2048 (ground arith) (omega arith) in
        let (b, e, s1, r, some_read, within, eb, goes, at) =
          read_at s p (piece left 2048) h low (omega arith) in
        let (s2, r2, at2) =
          fill_lem fuel (left - length b) (p + length b) s1 (out ++ b) at (omega arith)
            (omega arith) in
        (
          s2,
          rw (nz, r, unless_failed-read b e s1 _ some_read)
              (r2
                ∙ ap (λ (t : Bytes). ok (t, s2))
                    (append_assoc out b _
                      ∙ ap (λ (t : Bytes). out ++ t)
                          (take_read p left b content eb (omega arith)))),
          subst (At s2) (omega arith) at2,
        )
  ]

  -- The loop that skips stands behind what it skipped.
  pub skip_loop_lem :
      (fuel rem p : ℕ) (s : S)
      → At s p
      → p + rem ≤ length content
      → rem ≤ fuel
      → (s' : S) × (skip_loop read fuel rem s ≡ ok s') × At s' (p + rem)
  unfolding skip_loop
  skip_loop_lem zero rem p s h fits enough =
      let z : rem ≡ 0 = omega arith in (s, rw z refl, subst (At s) (omega arith) h)
  skip_loop_lem (suc fuel) rem p s h fits enough = elim (Bool-cases (rem == 0)) [
    | inl z ↦ (s, rw z refl, let none_left : rem ≡ 0 = ground arith in subst (At s) (omega arith) h)
    | inr nz ↦
        let (low, high) = piece_bounds rem 512 (ground arith) (omega arith) in
        let (b, e, s1, r, some_read, within, eb, goes, at) =
          read_at s p (piece rem 512) h low (omega arith) in
        let (s2, r2, at2) =
          skip_loop_lem fuel (rem - length b) (p + length b) s1 at (omega arith) (omega arith) in
        (s2, rw (nz, r, unless_failed-read b e s1 _ some_read) r2, subst (At s2) (omega arith) at2)
  ]
