-- ===== src/Readers.antt =====
-- The `ObjectReader` interface of object.go, which every store's readers implement and the code on
-- deltas uses, and the two loops that the code writes over it.
pub mod Loops
pub mod Memory
use go_repo_dojo.Base.{
  ℕ, zero, suc, ◌+◌, ◌-◌, ◌≤◌, ◌<◌, ◌≡◌, ◌⊎◌, Bool, true, false, Option, none, some, List, [], ◌∷◌,
  ◌++◌, ◌==◌, ltb, if◌then◌else◌, Bytes, length, take, drop, Error, Result, ok, err, eof, stuck,
}

-- A read gives the bytes and, as in Go, possibly an error beside them.
pub record ReaderOps : Type 1 where
  pub State : Type 0
  pub reset : State → Result State
  pub position : State → ℕ
  pub skip_bytes : ℕ → State → Result State
  pub read : ℕ → State → Bytes × Option Error × State

-- A read may stop short, and may tell of the end beside the last bytes.
abbrev pub Goes : Option Error → Type 0
Goes e = (e ≡ none) ⊎ (e ≡ some eof)

-- A read before the end gives some bytes, those that stand at the position, and moves behind them.
abbrev pub ReadAt :
    {S : Type 0} → (ℕ → S → Bytes × Option Error × S) → Bytes → (S → ℕ → Type 0) → Type 0
ReadAt {S} read content At =
    (s : S) (p n : ℕ)
    → At s p
    → 0 < n
    → p < length content
    → (b : Bytes) × (e : Option Error) × (s' : S) × (read n s ≡ (b, e, s'))
      × (0 < length b)
      × (length b ≤ n)
      × (b ≡ take (length b) (drop p content))
      × Goes e
      × At s' (p + length b)

-- The reader gives `content`; `At s p` says that it stands at position `p` of it.
pub record Reads (R : ReaderOps) (content : Bytes) (At : R.State → ℕ → Type 0) : Type 0 where
  pub reset_at : (s : R.State) (p : ℕ) → At s p → (s' : R.State) × (R.reset s ≡ ok s') × At s' 0
  pub position_at : (s : R.State) (p : ℕ) → At s p → R.position s ≡ p
  pub skip_at :
      (s : R.State) (p n : ℕ)
      → At s p
      → p + n ≤ length content
      → (s' : R.State) × (R.skip_bytes n s ≡ ok s') × At s' (p + n)
  pub read_at : ReadAt R.read content At

-- `if n == 0 && err != nil { return err }`, then the rest of the loop's body.
unfoldable pub unless_failed {ℓ} :
    {S : Type 0} {A : Type ℓ} → Bytes × Option Error × S → (Bytes → S → Result A) → Result A
unless_failed ([], some e, s) next = err e
unless_failed ([], none, s) next = next [] s
unless_failed (c ∷ b, e, s) next = next (c ∷ b) s

-- The size of the next piece, of what is left and of the buffer.
unfoldable pub piece : ℕ → ℕ → ℕ
piece left limit = if ltb limit left then limit else left

module _ {S : Type 0} (read : ℕ → S → Bytes × Option Error × S) where
  -- Reads until `left` bytes are there, at most 2048 at a time. A reader that gives something at
  -- every call needs no more than `left` rounds.
  unfoldable pub fill : ℕ → ℕ → S → Bytes → Result (Bytes × S)
  fill zero left s out = if left == 0 then ok (out, s) else err stuck
  fill (suc fuel) left s out =
      let next = λ (b : Bytes) (s' : S). fill fuel (left - length b) s' (out ++ b) in
      if left == 0 then ok (out, s) else unless_failed (read (piece left 2048) s) next

  -- `SkipBytes` and `skipBytes`: reads into a buffer of 512 bytes until nothing remains.
  unfoldable pub skip_loop : ℕ → ℕ → S → Result S
  skip_loop zero rem s = if rem == 0 then ok s else err stuck
  skip_loop (suc fuel) rem s =
      let next = λ (b : Bytes) (s' : S). skip_loop fuel (rem - length b) s' in
      if rem == 0 then ok s else unless_failed (read (piece rem 512) s) next
