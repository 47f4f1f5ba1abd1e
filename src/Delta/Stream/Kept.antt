-- ===== src/Delta/Stream/Kept.antt =====
-- The stream of an entry of a file keeps the contract of a reader, from the pack and from memory.
use go_repo_dojo.Base.{
  ℕ, zero, suc, ◌+◌, ◌-◌, ◌≤◌, ◌<◌, ◌≡◌, ◌⊎◌, refl, sym, ap, ◌∙◌, subst, inl, inr, Bool-cases, true,
  false, Option, none, some, [], ◌++◌, append-nil, append_assoc, arith, ◌==◌, leb, ltb, Bytes,
  length, length-take, length-drop, take, take-length-take, take-all, drop, Error, ok, eof,
}
use go_repo_dojo.Readers.{ReadAt, Goes, Reads}
use go_repo_dojo.Readers.Loops.{skip_loop_lem, take_read}
use go_repo_dojo.Delta.Stream.{
  ZlibOps, from_pack, in_memory, Stream, counted, stream_read, reset_stream, get_end_pos,
  read_full_stream, after_piece, after_error, read_into_memory_maybe, max_buf, stream_position,
  stream_ops,
}

-- `io.Reader` on the data: a read before the end gives some bytes, those that come next, with no
-- error, or with `io.EOF` beside the last ones. The file can be read again from the start, and its
-- end is found.
pub record Inflates (Z : ZlibOps) (content : Bytes) (At : Z.State → ℕ → Type 0) : Type 0 where
  pub of_file : Z.is_file ≡ true
  pub restart_at : (z : Z.State) (p : ℕ) → At z p → (z' : Z.State) × (Z.restart z ≡ ok z') × At z' 0
  pub finish_at : (z : Z.State) → At z (length content) → (n : ℕ) × (Z.finish z ≡ ok n)
  pub read_at :
      (z : Z.State) (p n : ℕ)
      → At z p
      → 0 < n
      → p < length content
      → (b : Bytes) × (e : Option Error) × (z' : Z.State) × (Z.read n z ≡ (b, e, z'))
        × (0 < length b)
        × (length b ≤ n)
        × (b ≡ take (length b) (drop p content))
        × ((e ≡ none) ⊎ ((e ≡ some eof) × (p + length b ≡ length content)))
        × At z' (p + length b)

module _ (Z : ZlibOps) (content : Bytes) (At : Z.State → ℕ → Type 0)
    (inflates : Inflates Z content At) where
  -- Where the stream stands.
  abbrev pub StreamAt : Stream Z → ℕ → Type 0
  StreamAt (from_pack z c) p = (c ≡ p) × (p ≤ length content) × At z p
  StreamAt (in_memory buf pos end_pos) p = (buf ≡ content) × (pos ≡ p) × (p ≤ length content)

  -- A read of the stream, with what the error says.
  stream_read_lem :
      (s : Stream Z) (p n : ℕ)
      → StreamAt s p
      → 0 < n
      → p < length content
      → (b : Bytes) × (e : Option Error) × (s' : Stream Z) × (stream_read Z n s ≡ (b, e, s'))
        × (0 < length b)
        × (length b ≤ n)
        × (b ≡ take (length b) (drop p content))
        × ((e ≡ none) ⊎ ((e ≡ some eof) × (p + length b ≡ length content)))
        × StreamAt s' (p + length b)
  unfolding stream_read counted
  stream_read_lem (from_pack z c) p n (same, within, at) some_left below =
      let (b, e, z', r, pos, low, eb, goes, at') = inflates.read_at z p n at some_left below in
      (
        b,
        e,
        from_pack z' (c + length b),
        rw r refl,
        pos,
        low,
        eb,
        goes,
        (
          omega arith,
          omega (
            arith,
            ap (λ (t : Bytes). length t) eb,
            length-take (length b) (drop p content),
            length-drop p content,
          ),
          at',
        ),
      )
  stream_read_lem (in_memory buf pos end_pos) p n (same, stands, within) some_left below =
      let b = take n (drop pos buf) in
      let whole : b ≡ take n (drop p content) = rw (same, stands) refl in
      let len = ap (λ (t : Bytes). length t) same in
      let size = length-take n (drop pos buf) in
      let more = length-drop pos buf in
      let inside : leb (length buf) pos ≡ false = ground arith in
      (
        b,
        none,
        in_memory buf (pos + length b) end_pos,
        rw inside refl,
        omega (arith, size, more),
        omega (arith, size),
        rw (same, stands) (take-length-take n (drop p content)),
        inl refl,
        (same, omega arith, omega (arith, size, more)),
      )

  stream_read-ReadAt : ReadAt (stream_read Z) content StreamAt
  stream_read-ReadAt s p n at some_left below =
      let (b, e, s', r, pos, low, eb, goes, at') = stream_read_lem s p n at some_left below in
      (b, e, s', r, pos, low, eb, weaker e goes, at')
    where
      weaker : {P : Type 0} (e : Option Error) → (e ≡ none) ⊎ ((e ≡ some eof) × P) → Goes e
      weaker e (inl h) = inl h
      weaker e (inr (h, _)) = inr h

  reset_stream_lem :
      (s : Stream Z) (p : ℕ)
      → StreamAt s p
      → (s' : Stream Z) × (reset_stream Z s ≡ ok s') × StreamAt s' 0
  unfolding reset_stream
  reset_stream_lem (from_pack z c) p (same, within, at) =
      let (z', r, at') = inflates.restart_at z p at in
      (from_pack z' 0, rw r refl, (refl, omega arith, at'))
  reset_stream_lem (in_memory buf pos end_pos) p (same, stands, within) =
      (in_memory buf 0 end_pos, refl, (same, refl, omega arith))

  pub stream_ops-Reads : Reads (stream_ops Z) content StreamAt
  unfolding stream_position
  stream_ops-Reads = record {
    reset_at = reset_stream_lem;
    position_at = λ s p h. stands s p h;
    skip_at = λ s p n h fits.
        skip_loop_lem (stream_read Z) content StreamAt stream_read-ReadAt n n p s h fits
          (omega arith);
    read_at = stream_read-ReadAt;
  }
    where
      stands : (s : Stream Z) (p : ℕ) → StreamAt s p → stream_position Z s ≡ p
      stands (from_pack z c) p (same, within, at) = same
      stands (in_memory buf pos end_pos) p (same, h, within) = h

  -- `io.ReadFull` to the end of the data gives the rest of it.
  read_full_stream_lem :
      (fuel left p : ℕ) (out : Bytes) (s : Stream Z)
      → StreamAt s p
      → p + left ≡ length content
      → left ≤ fuel
      → (s' : Stream Z) × (read_full_stream Z fuel left out s
          ≡ ok (out ++ take left (drop p content), s'))
        × StreamAt s' (length content)
  unfolding read_full_stream after_piece after_error
  read_full_stream_lem zero left p out s at fits enough =
      let z : left ≡ 0 = omega arith in
      (
        s,
        rw z (ap (λ (t : Bytes). ok (t, s)) (sym (append-nil out))),
        subst (StreamAt s) (omega arith) at,
      )
  read_full_stream_lem (suc fuel) left p out s at fits enough = elim (Bool-cases (left == 0)) [
    | inl z ↦
        let none_left : left ≡ 0 = ground arith in
        (
          s,
          rw (none_left) (ap (λ (t : Bytes). ok (t, s)) (sym (append-nil out))),
          subst (StreamAt s) (omega arith) at,
        )
    | inr nz ↦
        let (b, e, s1, r, some_read, low, eb, goes, at1) =
          stream_read_lem s p left at (ground arith) (ground arith) in
        let joined : b ++ take (left - length b) (drop (p + length b) content)
            ≡ take left (drop p content) =
          take_read p left b content eb low in
        let (s2, r2, at2) =
          read_full_stream_lem fuel (left - length b) (p + length b) (out ++ b) s1 at1 (omega arith)
            (omega arith) in
        elim (Bool-cases (leb left (length b))) [
          | inl full ↦
              let all : left - length b ≡ 0 = ground arith in
              (
                s1,
                rw (nz, r, full)
                    (ap (λ (t : Bytes). ok (out ++ t, s1)) (sym (append-nil b) ∙ rw all at joined)),
                subst (StreamAt s1) (ground arith) at1,
              )
          | inr more ↦
              let still : e ≡ none = elim goes [ inl h ↦ h | inr (_, h) ↦ absurd (ground arith) ] in
              (
                s2,
                rw (nz, r, more, still)
                    (r2
                      ∙ ap (λ (t : Bytes). ok (t, s2))
                          (append_assoc out b _ ∙ ap (λ (t : Bytes). out ++ t) joined)),
                at2,
              )
        ]
  ]

  -- The data of an entry is kept in memory, or left where it is if it is too large. Either way the stream
  -- gives the same data afterwards.
  pub read_into_memory_maybe_lem :
      (s : Stream Z)
      → StreamAt s (length content)
      → (s' : Stream Z) × (p : ℕ) × (read_into_memory_maybe Z (length content) s ≡ ok s')
        × StreamAt s' p
  unfolding read_into_memory_maybe get_end_pos
  read_into_memory_maybe_lem (in_memory buf pos end_pos) at =
      (in_memory buf pos end_pos, length content, refl, at)
  read_into_memory_maybe_lem (from_pack z c) at = elim (Bool-cases (ltb max_buf (length content))) [
    | inl large ↦ (from_pack z c, length content, rw (large, inflates.of_file) refl, at)
    | inr small ↦
        let (s1, e1, at1) = reset_stream_lem (from_pack z c) (length content) at in
        let (s2, e2, at2) =
          read_full_stream_lem (length content) (length content) 0 [] s1 at1 (omega arith)
            (omega arith) in
        let (n, e3) = end_found s2 at2 in
        (
          in_memory content 0 n,
          0,
          rw (small, e1, e2, e3, inflates.of_file)
              (ap (λ (t : Bytes). ok (in_memory t 0 n))
                (take-all (length content) content (omega arith))),
          (refl, refl, omega arith),
        )
  ]
    where
      end_found : (s : Stream Z) → StreamAt s (length content) → (n : ℕ) × (get_end_pos Z s ≡ ok n)
      end_found (from_pack z c) (same, within, at) = inflates.finish_at z at
      end_found (in_memory buf pos end_pos) at = (end_pos, refl)
