-- ===== src/Readers/Memory.antt =====
-- The reader of object_memory.go keeps the contract of `ObjectReader`.
use go_repo_dojo.Base.{
  ℕ, ◌+◌, ◌^◌, ◌≤◌, ◌<◌, ◌≡◌, refl, ap, inl, none, some, [], arith, Option, Bytes, length,
  take-length-take, length-take, length-drop, take, drop, Error, Result, ok, err,
}
use go_repo_dojo.Store.{MemoryObjectReader, reset, read, skip_bytes, position}
use go_repo_dojo.Store.Reader.{read_step}
use go_repo_dojo.Readers.{ReaderOps, Reads}

abbrev pub with_error :
    MemoryObjectReader
    → Result (Bytes × MemoryObjectReader)
    → Bytes × Option Error × MemoryObjectReader
with_error s (ok (b, s')) = (b, none, s')
with_error s (err e) = ([], some e, s)

abbrev pub memory_ops : ReaderOps
memory_ops = record {
  State = MemoryObjectReader;
  reset = λ s. ok (reset s);
  position = position;
  skip_bytes = λ n s. ok (skip_bytes n s);
  read = λ n s. with_error s (read n s);
}

-- The reader holds the content, and stands at the position.
unfoldable pub Stands : Bytes → MemoryObjectReader → ℕ → Type 0
Stands content s p =
    (s.content ≡ content) × (s.pos ≡ p) × (p ≤ length content) × (length content < 2 ^ 64)

skip_pos :
    (content : Bytes) (s : MemoryObjectReader) (p n : ℕ)
    → Stands content s p
    → p + n ≤ length content
    → (skip_bytes n s).pos ≡ p + n
unfolding Stands skip_bytes
skip_pos content s p n (c, e, w, f) h = ground (arith, ap (λ (t : Bytes). length t) c)

read-Stands :
    (content : Bytes) (s : MemoryObjectReader) (p n : ℕ)
    → Stands content s p
    → p < length content
    → read n s
      ≡ ok (take n (drop p content), record s { pos = p + length (take n (drop p content)) })
unfolding Stands
read-Stands content s p n (c, e, w, f) h =
    let len = ap (λ (t : Bytes). length t) c in
    rw (← c, ← e)
      (read_step n s (record { within = omega (arith, e, len); fits = omega (arith, len) })
        (omega (arith, e, len)))

-- A reader of the memory store gives its content: after any reset, skip and read it stands where the
-- contract says, and reads what stands there.
pub memory_ops-Reads : (content : Bytes) → Reads memory_ops content (Stands content)
unfolding Stands reset position
memory_ops-Reads content = record {
  reset_at = λ s p h. (reset s, refl, (h.0, refl, omega arith, h.3));
  position_at = λ s p h. h.1;
  skip_at = λ s p n h fits.
      (skip_bytes n s, refl, (unfold skip_bytes in h.0, skip_pos content s p n h fits, fits, h.3));
  read_at = λ s p n h some_left below.
      let b = take n (drop p content) in
      let len = length-take n (drop p content) in
      let more = length-drop p content in
      (
        b,
        none,
        record s { pos = p + length b },
        rw (read-Stands content s p n h below) refl,
        omega (arith, len, more),
        omega (arith, len),
        take-length-take n (drop p content),
        inl refl,
        (h.0, refl, omega (arith, len, more), h.3),
      );
}
