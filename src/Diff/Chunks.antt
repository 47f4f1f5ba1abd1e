-- ===== src/Diff/Chunks.antt =====
-- The chunks of `diff3Iterator`: they cut the three texts in order, and a clean one is the same lines
-- in all of them.
use go_repo_dojo.Base.{
  ℕ, zero, suc, ◌+◌, ◌-◌, ◌≤◌, ◌<◌, ◌≡◌, refl, sym, ap, ◌∙◌, subst, Bool, true, false, Bool-cases,
  ◌&&◌, ◌≢◌, ◌⊎◌, inl, inr, Option, none, some, List, [], ◌∷◌, ◌==◌, ltb, Bytes, length, get_index,
  arith,
}
use go_repo_dojo.Diff.{
  Edit, get_match, diff3_clean, diff3_conflict, Diff3Chunk, Diff3Iterator, new_diff3_range,
  new_diff3_chunk, in_bounds, same_line, is_match, both_match, find_mismatch, contains_line,
  find_match, lines_left, chunk_to, move_to, final_chunk, conflict_to, clean_chunk, chunk_at,
  next_chunk, collect_chunk, all_chunks, new_diff3_iterator,
}
use go_repo_dojo.Diff.Script.{SameLine, IsScript, get_match-SameLine, get_match_mono}

module _ (old a_text b_text : List Bytes) (ea eb : List Edit) where
  abbrev pub at : ℕ → ℕ → ℕ → Bool → Diff3Iterator
  at o a b done = record {
    line_count_o = length old;
    line_count_a = length a_text;
    line_count_b = length b_text;
    line_o = o;
    line_a = a;
    line_b = b;
    edits_a = ea;
    edits_b = eb;
    finished = done;
  }

  -- Lines that are the same in all three texts.
  abbrev pub IsClean : ℕ → ℕ → ℕ → ℕ → ℕ → ℕ → Diff3Chunk → Type 0
  IsClean o a b o' a' b' c =
      (n : ℕ) × ((0 < n)
        × ((o' ≡ o + n)
            × ((a' ≡ a + n)
                × ((b' ≡ b + n)
                    × ((c ≡ record {
                      kind = diff3_clean;
                      o_range = some (record { begin = o; end = o' });
                      a_range = none;
                      b_range = none;
                    })
                        × ((j : ℕ)
                            → j < n
                            → SameLine old a_text (o + j) (a + j)
                              × SameLine old b_text (o + j) (b + j)))))))

  abbrev pub IsConflict : ℕ → ℕ → ℕ → ℕ → ℕ → ℕ → Diff3Chunk → Type 0
  IsConflict o a b o' a' b' c = c ≡ record {
    kind = diff3_conflict;
    o_range = new_diff3_range o o';
    a_range = new_diff3_range a a';
    b_range = new_diff3_range b b';
  }

  -- The chunks from these lines on, one behind the other up to the ends of the three texts.
  abbrev pub Cuts : ℕ → ℕ → ℕ → List Diff3Chunk → Type 0
  Cuts o a b [] = (o ≡ length old) × ((a ≡ length a_text) × (b ≡ length b_text))
  Cuts o a b (c ∷ cs) =
      (o' a' b' : ℕ) × ((o ≤ o')
        × ((a ≤ a')
            × ((b ≤ b')
                × ((IsClean o a b o' a' b' c ⊎ IsConflict o a b o' a' b' c) × Cuts o' a' b' cs))))

  -- What is matched from here on lies ahead on both sides.
  record Stands (o a b : ℕ) : Type 0 where
    within_o : o ≤ length old
    within_a : a ≤ length a_text
    within_b : b ≤ length b_text
    ahead_a : (x : ℕ) (p : ℕ) → o ≤ x → get_match x ea ≡ some p → a ≤ p
    ahead_b : (x : ℕ) (p : ℕ) → o ≤ x → get_match x eb ≡ some p → b ≤ p

  record FirstMismatch (d : Diff3Iterator) (i : ℕ) : Type 0 where
    matched : (j : ℕ) → j < i → both_match d j ≡ true
    stops : (in_bounds d i ≡ false) ⊎ (both_match d i ≡ false)

  out_of_bounds : (d : Diff3Iterator) (i : ℕ) → lines_left d ≤ i → in_bounds d i ≡ false
  unfolding in_bounds lines_left
  out_of_bounds d i h = ground arith

  &&-true : (p q : Bool) → p && q ≡ true → (p ≡ true) × (q ≡ true)
  &&-true true true h = (refl, refl)
  &&-true true false h = absurd (cc h)
  &&-true false q h = absurd (cc h)

  &&-false : (p q : Bool) → p && q ≡ false → (p ≡ false) ⊎ (q ≡ false)
  &&-false true q h = inr h
  &&-false false q h = inl refl

  find_mismatch-FirstMismatch :
      (fuel : ℕ) (d : Diff3Iterator) (i : ℕ)
      → lines_left d ≤ fuel + i
      → ((j : ℕ) → j < i → both_match d j ≡ true)
      → FirstMismatch d (find_mismatch fuel d i)
  unfolding find_mismatch
  find_mismatch-FirstMismatch zero d i enough before = record {
    matched = before;
    stops = inl (out_of_bounds d i (omega arith));
  }
  find_mismatch-FirstMismatch (suc fuel) d i enough before =
      elim (Bool-cases (in_bounds d i && both_match d i)) [
        | inr stop ↦ rw stop (record { matched = before; stops = &&-false _ _ stop })
        | inl on ↦ rw on (
            find_mismatch-FirstMismatch fuel d (i + 1) (omega arith) (λ j lt.
              elim (Bool-cases (j == i)) [
                | inl same ↦
                    let e : i ≡ j = ground (arith, same) in
                    subst (λ (k : ℕ). both_match d k ≡ true) e (&&-true _ _ on).1
                | inr other ↦ before j (ground (arith, other, lt))
              ]))
      ]

  find_match-le : (fuel : ℕ) (d : Diff3Iterator) (o : ℕ) → o ≤ find_match fuel d o
  unfolding find_match
  find_match-le zero d o = omega arith
  find_match-le (suc fuel) d o =
      elim (Bool-cases (contains_line o d.edits_a && contains_line o d.edits_b)) [
        | inl t ↦ rw t (omega arith)
        | inr t ↦ rw t (omega (arith, find_match-le fuel d (o + 1)))
      ]

  same_line-true : (r : Option ℕ) (n : ℕ) → same_line r n ≡ true → r ≡ some n
  unfolding same_line
  same_line-true none n h = absurd (cc h)
  same_line-true (some r) n h = let e : r ≡ n = ground (arith, h) in ap some e

  both_match-true :
      (o a b j : ℕ) (done : Bool)
      → both_match (at o a b done) j ≡ true
      → (get_match (o + j) ea ≡ some (a + j)) × (get_match (o + j) eb ≡ some (b + j))
  unfolding both_match is_match
  both_match-true o a b j done h =
      let (ma, mb) = &&-true _ _ h in
      (
        same_line-true (get_match (o + j) ea) (a + j) ma,
        same_line-true (get_match (o + j) eb) (b + j) mb,
      )

  module _ (sa : IsScript old a_text 0 0 ea) (sb : IsScript old b_text 0 0 eb) where
    line_a : (x : ℕ) {p : ℕ} → get_match x ea ≡ some p → SameLine old a_text x p
    line_a x h = (get_match-SameLine old a_text 0 0 ea x sa h).1.1

    line_b : (x : ℕ) {p : ℕ} → get_match x eb ≡ some p → SameLine old b_text x p
    line_b x h = (get_match-SameLine old b_text 0 0 eb x sb h).1.1

    index_of_line :
        (new : List Bytes) (x p : ℕ) → SameLine old new x p → (x < length old) × (p < length new)
    index_of_line new x p (line, e, f) = (get_index old x e, get_index new p f)

    -- Behind a pair of matched lines everything lies ahead.
    clean-Stands :
        (o a b n : ℕ)
        → get_match (o + n) ea ≡ some (a + n)
        → get_match (o + n) eb ≡ some (b + n)
        → Stands (o + suc n) (a + suc n) (b + suc n)
    clean-Stands o a b n ma mb =
        let (io, ia) = index_of_line a_text (o + n) (a + n) (line_a (o + n) ma) in
        let (io', ib) = index_of_line b_text (o + n) (b + n) (line_b (o + n) mb) in
        record {
          within_o = omega arith;
          within_a = omega arith;
          within_b = omega arith;
          ahead_a = λ x p le h.
              let later = get_match_mono old a_text 0 0 ea (o + n) x sa ma h (omega arith) in
              omega arith;
          ahead_b = λ x p le h.
              let later = get_match_mono old b_text 0 0 eb (o + n) x sb mb h (omega arith) in
              omega arith;
        }

    conflict-Stands : (o a b : ℕ) → get_match o ea ≡ some a → get_match o eb ≡ some b → Stands o a b
    conflict-Stands o a b ma mb =
        let (io, ia) = index_of_line a_text o a (line_a o ma) in
        let (io', ib) = index_of_line b_text o b (line_b o mb) in
        record {
          within_o = omega arith;
          within_a = omega arith;
          within_b = omega arith;
          ahead_a = λ x p le h. elim (Bool-cases (x == o)) [
            | inl same ↦
                let e : x ≡ o = ground (arith, same) in
                let k : some p ≡ some a = sym h ∙ ap (λ (y : ℕ). get_match y ea) e ∙ ma in
                ground (arith, k)
            | inr other ↦
                let later =
                  get_match_mono old a_text 0 0 ea o x sa ma h (ground (arith, other, le)) in
                omega arith
          ];
          ahead_b = λ x p le h. elim (Bool-cases (x == o)) [
            | inl same ↦
                let e : x ≡ o = ground (arith, same) in
                let k : some p ≡ some b = sym h ∙ ap (λ (y : ℕ). get_match y eb) e ∙ mb in
                ground (arith, k)
            | inr other ↦
                let later =
                  get_match_mono old b_text 0 0 eb o x sb mb h (ground (arith, other, le)) in
                omega arith
          ];
        }

    abbrev Done : ℕ → ℕ → ℕ → ℕ → Type 0
    Done fuel o a b =
        (cs : List Diff3Chunk) × ((all_chunks fuel (at o a b false) ≡ some cs) × Cuts o a b cs)

    abbrev left : ℕ → ℕ → ℕ → ℕ
    left o a b = (length old - o) + ((length a_text - a) + (length b_text - b))

    next_chunk-chunk_at :
        (o a b : ℕ)
        → next_chunk (at o a b false)
          ≡ chunk_at
              (at o a b false)
              (find_mismatch (lines_left (at o a b false)) (at o a b false) 0)
              (find_match (length old - o) (at o a b false) o)
    unfolding next_chunk
    next_chunk-chunk_at o a b = refl

    finished_chunks : (fuel o a b : ℕ) → all_chunks (suc fuel) (at o a b true) ≡ some []
    unfolding all_chunks next_chunk collect_chunk
    finished_chunks fuel o a b = refl

    -- A chunk, and those from where it ends.
    put_chunk :
        (fuel : ℕ) (d d' : Diff3Iterator) (c : Diff3Chunk) (cs : List Diff3Chunk)
        → next_chunk d ≡ (some c, d')
        → all_chunks fuel d' ≡ some cs
        → all_chunks (suc fuel) d ≡ some (c ∷ cs)
    unfolding all_chunks collect_chunk
    put_chunk fuel d d' c cs h k = rw (h, collect_chunk, k) refl

    -- The last chunk reaches to the ends.
    finish-Done :
        (fuel o a b : ℕ) (c : Diff3Chunk)
        → Stands o a b
        → next_chunk (at o a b false) ≡ (some c, at o a b true)
        → IsClean o a b (length old) (length a_text) (length b_text) c
          ⊎ IsConflict o a b (length old) (length a_text) (length b_text) c
        → Done (suc (suc fuel)) o a b
    finish-Done fuel o a b c s h good = (
      c ∷ [],
      (
        put_chunk (suc fuel) (at o a b false) (at o a b true) c [] h (finished_chunks fuel o a b),
        (
          length old,
          length a_text,
          length b_text,
          (s.within_o, (s.within_a, (s.within_b, (good, (refl, (refl, refl)))))),
        ),
      ),
    )

    -- A chunk that leads to lines from where the rest follows.
    step-Done :
        (fuel o a b o' a' b' : ℕ) (c : Diff3Chunk)
        → next_chunk (at o a b false) ≡ (some c, at o' a' b' false)
        → o ≤ o'
        → a ≤ a'
        → b ≤ b'
        → IsClean o a b o' a' b' c ⊎ IsConflict o a b o' a' b' c
        → Done fuel o' a' b'
        → Done (suc fuel) o a b
    step-Done fuel o a b o' a' b' c h lo la lb good (cs, (rest, cuts)) = (
      c ∷ cs,
      (
        put_chunk fuel (at o a b false) (at o' a' b' false) c cs h rest,
        (o', a', b', (lo, (la, (lb, (good, cuts))))),
      ),
    )

    clean_to :
        (o a b o' a' b' : ℕ) (done : Bool)
        → o < o'
        → chunk_to (at o a b done) o' a' b' true
          ≡ some (record {
            kind = diff3_clean;
            o_range = some (record { begin = o; end = o' });
            a_range = none;
            b_range = none;
          })
    unfolding chunk_to new_diff3_range
    clean_to o a b o' a' b' done lt =
        let e : ltb o o' ≡ true = ground arith in rw (e, clean_chunk) refl

    conflict_chunk : (o a b o' a' b' : ℕ) → Diff3Chunk
    conflict_chunk o a b o' a' b' = record {
      kind = diff3_conflict;
      o_range = new_diff3_range o o';
      a_range = new_diff3_range a a';
      b_range = new_diff3_range b b';
    }

    -- Everything that was matched on the way is the same in all three texts.
    matched_lines :
        (o a b n : ℕ)
        → ((j : ℕ) → j < n → both_match (at o a b false) j ≡ true)
        → (j : ℕ) → j < n
        → SameLine old a_text (o + j) (a + j) × SameLine old b_text (o + j) (b + j)
    matched_lines o a b n matched j lt =
        let (ma, mb) = both_match-true o a b j false (matched j lt) in
        (line_a (o + j) ma, line_b (o + j) mb)

    -- A line of the base that both sides keep, and that is not matched here, is elsewhere on one side.
    unmatched_moves :
        (o a b a' b' : ℕ)
        → get_match o ea ≡ some a'
        → get_match o eb ≡ some b'
        → both_match (at o a b false) 0 ≡ false
        → (a' ≢ a) ⊎ (b' ≢ b)
    unfolding both_match is_match same_line
    unmatched_moves o a b a' b' ma mb h =
        let zero' : o ≡ o + 0 = omega arith in
        let ma' = subst (λ (x : ℕ). get_match x ea ≡ some a') zero' ma in
        let mb' = subst (λ (x : ℕ). get_match x eb ≡ some b') zero' mb in
        let k : (a' == a + 0) && (b' == b + 0) ≡ false = rw (ma', mb') at h in ground (arith, k)

    -- The bounds were left behind matched lines: all three texts end here.
    ends_together :
        (o a b n : ℕ)
        → in_bounds (at o a b false) (suc n) ≡ false
        → get_match (o + n) ea ≡ some (a + n)
        → get_match (o + n) eb ≡ some (b + n)
        → (length old ≡ o + suc n) × ((length a_text ≡ a + suc n) × (length b_text ≡ b + suc n))
    unfolding in_bounds
    ends_together o a b n out ma mb =
        let (io, ia) = index_of_line a_text (o + n) (a + n) (line_a (o + n) ma) in
        let (io', ib) = index_of_line b_text (o + n) (b + n) (line_b (o + n) mb) in
        (ground (arith, out), (ground (arith, out), ground (arith, out)))

    module _ (fuel o a b : ℕ) (s : Stands o a b) (next_stop : ℕ) (onward : o ≤ next_stop)
        (rest : (o' a' b' : ℕ)
          → Stands o' a' b'
          → left o' a' b' < left o a b
          → Done (suc fuel) o' a' b') where
      abbrev d : Diff3Iterator
      d = at o a b false

      final-Done :
          (i : ℕ)
          → FirstMismatch d i
          → next_chunk d ≡ final_chunk d i
          → (in_bounds d i ≡ false) ⊎ (i ≡ 0)
          → Done (suc (suc fuel)) o a b
      unfolding final_chunk
      final-Done zero m h why =
          finish-Done fuel o a b (conflict_chunk o a b (length old) (length a_text) (length b_text))
            s (unfold conflict_chunk chunk_to new_diff3_chunk in h)
            (inr (unfold conflict_chunk in refl))
      final-Done (suc n) m h (inr zero') = absurd (omega arith)
      final-Done (suc n) m h (inl out) =
          let (ma, mb) = both_match-true o a b n false (m.matched n (omega arith)) in
          let (eo, (eq_a, eq_b)) = ends_together o a b n out ma mb in
          let clean =
            clean_to o a b (length old) (length a_text) (length b_text) false (omega arith) in
          let positive : ltb 0 (suc n) ≡ true = ground arith in
          let flagged : final_chunk d (suc n)
              ≡ (chunk_to d (length old) (length a_text) (length b_text) true, at o a b true) =
            ap
              (λ (t : Bool).
                (chunk_to d (length old) (length a_text) (length b_text) t, at o a b true))
              positive in
          finish-Done fuel o a b _ s (h ∙ flagged ∙ ap (λ x. (x, at o a b true)) clean) (
            inl (
              suc n,
              (omega arith, (eo, (eq_a, (eq_b, (refl, matched_lines o a b (suc n) m.matched))))),
            ))

      clean-Done :
          (n : ℕ)
          → FirstMismatch d (suc n)
          → next_chunk d ≡ (
            chunk_to d (o + suc n) (a + suc n) (b + suc n) true,
            at (o + suc n) (a + suc n) (b + suc n) false,
          )
          → Done (suc (suc fuel)) o a b
      clean-Done n m h =
          let (ma, mb) = both_match-true o a b n false (m.matched n (omega arith)) in
          let later = clean-Stands o a b n ma mb in
          let bound = later.within_o in
          let clean = clean_to o a b (o + suc n) (a + suc n) (b + suc n) false (omega arith) in
          step-Done (suc fuel) o a b (o + suc n) (a + suc n) (b + suc n) _
            (h ∙ ap (λ x. (x, at (o + suc n) (a + suc n) (b + suc n) false)) clean) (omega arith)
            (omega arith) (omega arith)
            (inl (
              suc n,
              (omega arith, (refl, (refl, (refl, (refl, matched_lines o a b (suc n) m.matched))))),
            ))
            (rest (o + suc n) (a + suc n) (b + suc n) later (omega arith))

      -- A conflict that ends at the same line of the base goes on in another text.
      progress :
          (a' b' : ℕ)
          → get_match next_stop ea ≡ some a'
          → get_match next_stop eb ≡ some b'
          → a ≤ a'
          → b ≤ b'
          → Stands next_stop a' b'
          → both_match d 0 ≡ false
          → left next_stop a' b' < left o a b
      progress a' b' ma mb la lb later unmatched = elim (Bool-cases (next_stop == o)) [
        | inr other ↦
            let (io, ia) = index_of_line a_text next_stop a' (line_a next_stop ma) in
            let moved : o < next_stop = ground (arith, other, onward) in omega arith
        | inl same ↦
            let e : next_stop ≡ o = ground (arith, same) in
            let ma' = subst (λ (x : ℕ). get_match x ea ≡ some a') e ma in
            let mb' = subst (λ (x : ℕ). get_match x eb ≡ some b') e mb in
            let (io, ia) = index_of_line a_text next_stop a' (line_a next_stop ma) in
            let (io', ib) = index_of_line b_text next_stop b' (line_b next_stop mb) in
            elim (unmatched_moves o a b a' b' ma' mb' unmatched) [
              | inl moved ↦ omega arith
              | inr moved ↦ omega arith
            ]
      ]

      conflict-Done :
          (oa ob : Option ℕ)
          → get_match next_stop ea ≡ oa
          → get_match next_stop eb ≡ ob
          → FirstMismatch d 0
          → both_match d 0 ≡ false
          → next_chunk d ≡ conflict_to d next_stop oa ob
          → Done (suc (suc fuel)) o a b
      unfolding conflict_to
      conflict-Done none ob ma mb m unmatched h = final-Done 0 m h (inr refl)
      conflict-Done (some a') none ma mb m unmatched h = final-Done 0 m h (inr refl)
      conflict-Done (some a') (some b') ma mb m unmatched h =
          let later = conflict-Stands next_stop a' b' ma mb in
          let la = s.ahead_a next_stop a' onward ma in
          let lb = s.ahead_b next_stop b' onward mb in
          step-Done (suc fuel) o a b next_stop a' b' (conflict_chunk o a b next_stop a' b')
            (unfold conflict_chunk chunk_to new_diff3_chunk move_to in h) onward la lb
            (inr (unfold conflict_chunk in refl))
            (rest next_stop a' b' later (progress a' b' ma mb la lb later unmatched))

      at-Done :
          (i : ℕ)
          → FirstMismatch d i
          → next_chunk d ≡ chunk_at d i next_stop
          → Done (suc (suc fuel)) o a b
      unfolding chunk_at
      at-Done i m h = elim (Bool-cases (in_bounds d i)) [
        | inr out ↦ final-Done i m (h ∙ rw (out, chunk_at) refl) (inl out)
        | inl inside ↦ inner i m inside h
      ]
        where
          inner :
              (i : ℕ)
              → FirstMismatch d i
              → in_bounds d i ≡ true
              → next_chunk d ≡ chunk_at d i next_stop
              → Done (suc (suc fuel)) o a b
          inner zero m inside h = elim m.stops [
            | inl out ↦ absurd (cc (sym inside ∙ out))
            | inr unmatched ↦
                conflict-Done (get_match next_stop ea) (get_match next_stop eb) refl refl m
                  unmatched (h ∙ rw (inside, chunk_at) refl)
          ]
          inner (suc n) m inside h =
              let nonzero : suc n == 0 ≡ false = ground arith in
              clean-Done n m (h ∙ unfold move_to in rw (inside, nonzero, chunk_at) refl)

    all_chunks-Done : (fuel o a b : ℕ) → Stands o a b → left o a b < fuel → Done (suc fuel) o a b
    all_chunks-Done zero o a b s h = absurd (omega arith)
    all_chunks-Done (suc fuel) o a b s h =
        let d' = at o a b false in
        let found =
          find_mismatch-FirstMismatch (lines_left d') d' 0 (omega arith)
            (λ j lt. absurd (omega arith)) in
        at-Done fuel o a b s (find_match (length old - o) d' o)
          (find_match-le (length old - o) d' o)
          (λ o' a' b' s' lt. all_chunks-Done fuel o' a' b' s' (omega arith))
          (find_mismatch (lines_left d') d' 0) found (next_chunk-chunk_at o a b)

-- Where the edits to either side are edit scripts from the base, the three-way comparison ends, with
-- fuel of the lines of the three texts and two. Its chunks cut the three texts one behind the other,
-- from their starts to their ends: a clean chunk is a run of lines which are the same in the base and
-- at the corresponding lines of both sides, and any other names the lines of each text that it
-- stands for.
pub all_chunks-Cuts :
    (old a_text b_text : List Bytes) (ea eb : List Edit) (fuel : ℕ)
    → IsScript old a_text 0 0 ea
    → IsScript old b_text 0 0 eb
    → length old + (length a_text + length b_text) < fuel
    → (cs : List Diff3Chunk) × ((all_chunks
            (suc fuel)
            (new_diff3_iterator (length old) (length a_text) (length b_text) ea eb)
          ≡ some cs)
        × Cuts old a_text b_text ea eb 0 0 0 cs)
unfolding new_diff3_iterator
all_chunks-Cuts old a_text b_text ea eb fuel sa sb enough =
    all_chunks-Done old a_text b_text ea eb sa sb fuel 0 0 0
      (record {
        within_o = omega arith;
        within_a = omega arith;
        within_b = omega arith;
        ahead_a = λ x p le h. omega arith;
        ahead_b = λ x p le h. omega arith;
      })
      (omega arith)
