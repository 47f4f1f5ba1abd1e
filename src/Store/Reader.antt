-- ===== src/Store/Reader.antt =====
-- Reading an object in pieces, and skipping.
use go_repo_dojo.Base.{
  ℕ, ◌+◌, ◌^◌, ◌≤◌, ◌<◌, ◌≡◌, refl, ap, ◌∙◌, sym, List, [], ◌∷◌, ◌++◌, arith, Bytes, length, take,
  drop, length-take, length-drop, ok, err, min, take-append-take_rest, drop-drop, drop-all,
  take-nil, eof,
}
use native.Mathlib.Decide.{dec_lt}
use go_repo_dojo.Store.{MemoryObjectReader, read, skip_bytes, reset}

-- The position is in the content, and the content's length is a uint64.
pub record IsValid (r : MemoryObjectReader) : Type 0 where
  pub within : r.pos ≤ length r.content
  pub fits : length r.content < 2 ^ 64

-- What a caller gets that reads with buffers of the given sizes until an error.
pub read_pieces : List ℕ → MemoryObjectReader → Bytes
read_pieces [] r = []
read_pieces (n ∷ ns) r = elim (read n r) [ ok (b, r') ↦ b ++ read_pieces ns r' | err e ↦ [] ]

abbrev pub sum : List ℕ → ℕ
sum [] = 0
sum (n ∷ ns) = n + sum ns

read_end : (n : ℕ) (r : MemoryObjectReader) → length r.content ≤ r.pos → read n r ≡ err eof
unfolding read
read_end n r h = ground arith

pub read_step :
    (n : ℕ) (r : MemoryObjectReader)
    → IsValid r
    → r.pos < length r.content
    → read n r
      ≡ ok (
        take n (drop r.pos r.content),
        record r { pos = r.pos + length (take n (drop r.pos r.content)) },
      )
unfolding read
read_step n r v h =
    ground (arith, length-take n (drop r.pos r.content), length-drop r.pos r.content)

-- Reading in pieces of any sizes gives the content from the position on, as far as the sizes go.
pub read_pieces-take :
    (ns : List ℕ) (r : MemoryObjectReader)
    → IsValid r
    → read_pieces ns r ≡ take (sum ns) (drop r.pos r.content)
unfolding read_pieces
read_pieces-take [] r v = refl
read_pieces-take (n ∷ ns) r v = elim (dec_lt r.pos (length r.content)) [
  | yes h ↦
      let b = take n (drop r.pos r.content) in
      let len = length-take n (drop r.pos r.content) in
      let more = length-drop r.pos r.content in
      rw (read_step n r v h, read_pieces)
        (ap (λ (t : Bytes). b ++ t)
            (read_pieces-take ns (record r { pos = r.pos + length b })
              (record { within = omega (arith, len, more); fits = v.fits }))
          ∙ ap (λ (t : Bytes). b ++ take (sum ns) t)
              (sym (drop-drop r.pos (length b) _ r.content refl))
          ∙ take-append-take_rest n (sum ns) _ (drop r.pos r.content) refl)
  | no h ↦
      rw (read_end n r (omega arith), read_pieces, drop-all r.pos r.content (omega arith))
        (sym (take-nil (n + sum ns)))
]

skip_bytes-reset :
    (n : ℕ) (r : MemoryObjectReader)
    → IsValid r
    → n < 2 ^ 64
    → skip_bytes n (reset r) ≡ record r { pos = min n (length r.content) }
unfolding skip_bytes reset
skip_bytes-reset n r v h = ground arith

drop-min : (n : ℕ) (s : Bytes) → drop (min n (length s)) s ≡ drop n s
drop-min n s = elim (dec_lt n (length s)) [
  | yes h ↦ ap (λ (t : ℕ). drop t s) (omega arith)
  | no h ↦ drop-all _ s (omega arith) ∙ sym (drop-all n s (omega arith))
]

-- After a reset and a skip of `n` bytes, a reader that stood anywhere reads the content behind the
-- first `n` bytes, and nothing if there are no more than `n`.
pub read_pieces-skip_bytes :
    (n : ℕ) (ns : List ℕ) (r : MemoryObjectReader)
    → IsValid r
    → n < 2 ^ 64
    → read_pieces ns (skip_bytes n (reset r)) ≡ take (sum ns) (drop n r.content)
read_pieces-skip_bytes n ns r v h = rw (skip_bytes-reset n r v h) (
    read_pieces-take ns (record r { pos = min n (length r.content) })
      (record { within = omega arith; fits = v.fits })
    ∙ ap (take (sum ns)) (drop-min n r.content))
