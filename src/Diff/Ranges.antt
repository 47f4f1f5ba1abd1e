-- ===== src/Diff/Ranges.antt =====
-- The cache of edits that `next` makes of the ranges where two texts differ is an edit script.
use go_repo_dojo.Base.{
  ℕ, zero, suc, ◌+◌, ◌-◌, ◌≤◌, ◌<◌, ◌≡◌, refl, sym, ap, ◌∙◌, subst, List, [], ◌∷◌, ◌++◌, append-nil,
  append_assoc, Bytes, length, arith,
}
use go_repo_dojo.Diff.{
  Edit, MyersDiffRange, equal_edits, deletions, insertions, smaller, range_edits, all_edits,
}
use go_repo_dojo.Diff.Script.{SameLine, IsScript}

module _ (old new : List Bytes) where
  -- As many equal lines from a pair of lines on.
  abbrev pub IsRun : ℕ → ℕ → ℕ → Type 0
  IsRun x y n = (j : ℕ) → j < n → SameLine old new (x + j) (y + j)

  -- Ranges with equal lines in front of each, and behind the last up to the ends of both texts.
  abbrev pub IsRanges : ℕ → ℕ → List MyersDiffRange → Type 0
  IsRanges x y [] = (k : ℕ) × ((length old ≡ x + k) × ((length new ≡ y + k) × IsRun x y k))
  IsRanges x y (r ∷ rs) =
      (k : ℕ) × ((r.del_start ≡ x + k)
        × ((r.ins_start ≡ y + k)
            × (IsRun x y k
                × ((r.del_start ≤ r.del_end)
                    × ((r.del_end ≤ length old)
                        × ((r.ins_start ≤ r.ins_end)
                            × ((r.ins_end ≤ length new) × IsRanges r.del_end r.ins_end rs)))))))

  shift-IsRun : (x y n : ℕ) → IsRun x y (suc n) → IsRun (suc x) (suc y) n
  shift-IsRun x y n h j lt =
      let ex : x + suc j ≡ suc x + j = omega arith in
      let ey : y + suc j ≡ suc y + j = omega arith in
      subst (λ (c : ℕ). SameLine old new c (suc y + j)) ex
        (subst (λ (c : ℕ). SameLine old new (x + suc j) c) ey (h (suc j) (omega arith)))

  equal_edits-IsScript :
      (k x y : ℕ) (es : List Edit)
      → IsRun x y k
      → IsScript old new (x + k) (y + k) es
      → IsScript old new x y (equal_edits k x y ++ es)
  unfolding equal_edits
  equal_edits-IsScript zero x y es run rest =
      let ex : x + 0 ≡ x = omega arith in
      let ey : y + 0 ≡ y = omega arith in
      subst (λ (c : ℕ). IsScript old new c y es) ex
        (subst (λ (c : ℕ). IsScript old new (x + 0) c es) ey rest)
  equal_edits-IsScript (suc k) x y es run rest =
      let ex : x + suc k ≡ suc x + k = omega arith in
      let ey : y + suc k ≡ suc y + k = omega arith in
      let e0 : x + 0 ≡ x = omega arith in
      let f0 : y + 0 ≡ y = omega arith in
      let head =
        subst (λ (c : ℕ). SameLine old new c y) e0
          (subst (λ (c : ℕ). SameLine old new (x + 0) c) f0 (run 0 (omega arith))) in
      (
        (refl, (refl, head)),
        equal_edits-IsScript k (suc x) (suc y) es (shift-IsRun x y k run) (
            subst (λ (c : ℕ). IsScript old new c (suc y + k) es) ex
              (subst (λ (c : ℕ). IsScript old new (x + suc k) c es) ey rest)),
      )

  deletions-IsScript :
      (k x y : ℕ) (es : List Edit)
      → x + k ≤ length old
      → IsScript old new (x + k) y es
      → IsScript old new x y (deletions k x ++ es)
  unfolding deletions
  deletions-IsScript zero x y es h rest =
      let e : x + 0 ≡ x = omega arith in subst (λ (c : ℕ). IsScript old new c y es) e rest
  deletions-IsScript (suc k) x y es h rest =
      let e : x + suc k ≡ suc x + k = omega arith in
      (
        (refl, omega arith),
        deletions-IsScript k (suc x) y es (omega arith)
            (subst (λ (c : ℕ). IsScript old new c y es) e rest),
      )

  insertions-IsScript :
      (k x y : ℕ) (es : List Edit)
      → y + k ≤ length new
      → IsScript old new x (y + k) es
      → IsScript old new x y (insertions k y ++ es)
  unfolding insertions
  insertions-IsScript zero x y es h rest =
      let e : y + 0 ≡ y = omega arith in subst (λ (c : ℕ). IsScript old new x c es) e rest
  insertions-IsScript (suc k) x y es h rest =
      let e : y + suc k ≡ suc y + k = omega arith in
      (
        (refl, omega arith),
        insertions-IsScript k x (suc y) es (omega arith)
            (subst (λ (c : ℕ). IsScript old new x c es) e rest),
      )

  smaller_same : (a b k : ℕ) → a ≡ k → b ≡ k → smaller a b ≡ k
  unfolding smaller
  smaller_same a b k ea eb = ground (arith, ea, eb)

  range_edits_shape :
      (x y k : ℕ) (r : MyersDiffRange)
      → smaller (r.del_start - x) (r.ins_start - y) ≡ k
      → range_edits x y r
        ≡ equal_edits k x y
          ++ (deletions (r.del_end - r.del_start) r.del_start
              ++ insertions (r.ins_end - r.ins_start) r.ins_start)
  unfolding range_edits
  range_edits_shape x y k r gap =
      ap
        (λ (c : ℕ).
          equal_edits c x y
          ++ (deletions (r.del_end - r.del_start) r.del_start
              ++ insertions (r.ins_end - r.ins_start) r.ins_start))
        gap

  -- One range, and the edits behind it.
  range_edits-IsScript :
      (x y k : ℕ) (r : MyersDiffRange) (es : List Edit)
      → r.del_start ≡ x + k
      → r.ins_start ≡ y + k
      → IsRun x y k
      → r.del_start ≤ r.del_end
      → r.del_end ≤ length old
      → r.ins_start ≤ r.ins_end
      → r.ins_end ≤ length new
      → IsScript old new r.del_end r.ins_end es
      → IsScript old new x y (range_edits x y r ++ es)
  range_edits-IsScript x y k r es dx dy run ld bd li bi rest =
      let gap = smaller_same (r.del_start - x) (r.ins_start - y) k (omega arith) (omega arith) in
      let del_to : r.del_start + (r.del_end - r.del_start) ≡ r.del_end = omega arith in
      let ins_to : r.ins_start + (r.ins_end - r.ins_start) ≡ r.ins_end = omega arith in
      let inserted =
        insertions-IsScript (r.ins_end - r.ins_start) r.del_end r.ins_start es (omega arith)
          (subst (λ (c : ℕ). IsScript old new r.del_end c es) (sym ins_to) rest) in
      let deleted =
        deletions-IsScript (r.del_end - r.del_start) r.del_start r.ins_start
          (insertions (r.ins_end - r.ins_start) r.ins_start ++ es) (omega arith)
          (subst
            (λ (c : ℕ).
              IsScript old new c r.ins_start
                (insertions (r.ins_end - r.ins_start) r.ins_start ++ es))
            (sym del_to) inserted) in
      let equal =
        equal_edits-IsScript k x y
          (deletions (r.del_end - r.del_start) r.del_start
            ++ (insertions (r.ins_end - r.ins_start) r.ins_start ++ es))
          run
          (subst
            (λ (c : ℕ). IsScript old new c (y + k) (
              deletions (r.del_end - r.del_start) r.del_start
              ++ (insertions (r.ins_end - r.ins_start) r.ins_start ++ es)))
            dx
            (subst
              (λ (c : ℕ). IsScript old new r.del_start c (
                deletions (r.del_end - r.del_start) r.del_start
                ++ (insertions (r.ins_end - r.ins_start) r.ins_start ++ es)))
              dy deleted)) in
      let shape : range_edits x y r ++ es
          ≡ equal_edits k x y
            ++ (deletions (r.del_end - r.del_start) r.del_start
                ++ (insertions (r.ins_end - r.ins_start) r.ins_start ++ es)) =
        ap (λ t. t ++ es) (range_edits_shape x y k r gap) ∙ simp (append_assoc) in
      subst (IsScript old new x y) (sym shape) equal

  -- With a range the whole cache is a script; the last range has the rest of both texts behind it.
  IsScript-of_ranges :
      (x y : ℕ) (r : MyersDiffRange) (rs : List MyersDiffRange)
      → IsRanges x y (r ∷ rs)
      → IsScript old new x y (all_edits (length old) (length new) x y (r ∷ rs))
  unfolding all_edits
  IsScript-of_ranges x y r []
        (k, (dx, (dy, (run, (ld, (bd, (li, (bi, (n, (eo, (en, tail))))))))))) =
      let gap =
        smaller_same (length old - r.del_end) (length new - r.ins_end) n (omega arith)
          (omega arith) in
      let ending = equal_edits-IsScript n r.del_end r.ins_end [] tail (sym eo, sym en) in
      let closing : IsScript old new r.del_end r.ins_end (equal_edits n r.del_end r.ins_end) =
        subst (IsScript old new r.del_end r.ins_end)
          (append-nil (equal_edits n r.del_end r.ins_end)) ending in
      range_edits-IsScript x y k r _ dx dy run ld bd li bi (
        subst (λ (c : ℕ). IsScript old new r.del_end r.ins_end (equal_edits c r.del_end r.ins_end))
          (sym gap) closing)
  IsScript-of_ranges x y r (r' ∷ rs) (k, (dx, (dy, (run, (ld, (bd, (li, (bi, rest)))))))) =
      range_edits-IsScript x y k r _ dx dy run ld bd li bi
        (IsScript-of_ranges r.del_end r.ins_end r' rs rest)

-- Where two texts are cut into ranges, one at least, with runs of equal lines in front of each and
-- behind the last, each range within both texts, the edits that `next` gathers are an edit script from
-- the start of the one text to the end of the other.
pub all_edits-IsScript :
    (old new : List Bytes) (r : MyersDiffRange) (rs : List MyersDiffRange)
    → IsRanges old new 0 0 (r ∷ rs)
    → IsScript old new 0 0 (all_edits (length old) (length new) 0 0 (r ∷ rs))
all_edits-IsScript old new r rs h = IsScript-of_ranges old new 0 0 r rs h
