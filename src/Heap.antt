-- ===== src/Heap.antt =====
-- container/heap of the standard library on a queue that is a slice with `Less`: `Push`, `Pop` and
-- `Fix` by the two sifting loops. Indices are those of the slice.
pub mod Kept
use go_repo_dojo.Base.{
  ℕ, zero, suc, ◌+◌, ◌-◌, ◌*◌, ◌/◌, Bool, true, false, not, ◌&&◌, ◌||◌, Option, none, some, List,
  [], ◌∷◌, ◌++◌, ◌==◌, ltb, leb, if◌then◌else◌, length, take, get_elem?,
}

module _ {A : Type 0} where
  unfoldable pub set : List A → ℕ → A → List A
  set [] i v = []
  set (x ∷ xs) zero v = v ∷ xs
  set (x ∷ xs) (suc i) v = x ∷ set xs i v

  pub exchange : List A → ℕ → ℕ → Option A → Option A → List A
  exchange q i j (some a) (some b) = set (set q i b) j a
  exchange q i j none b = q
  exchange q i j (some a) none = q

  -- `q[i], q[j] = q[j], q[i]`.
  unfoldable pub swap : List A → ℕ → ℕ → List A
  unfolding exchange set
  swap q i j = exchange q i j (get_elem? q i) (get_elem? q j)

  -- `item := old[n-1]; *q = old[:n-1]`, with the index of the last item.
  pub take_last : ℕ → List A → Option (A × List A)
  take_last n q = elim (get_elem? q n) [ none ↦ none | some x ↦ some (x, take n q) ]

  module _ (before : A → A → Bool) where
    pub before? : Option A → Option A → Bool
    before? (some a) (some b) = before a b
    before? none b = false
    before? (some a) none = false

    -- `h.Less(i, j)`.
    unfoldable pub less : List A → ℕ → ℕ → Bool
    unfolding before?
    less q i j = before? (get_elem? q i) (get_elem? q j)

    -- `(j - 1) / 2` of 0 is 0, and the loop ends there. It halves the index, so the index is fuel
    -- enough.
    unfoldable pub sift_up : ℕ → ℕ → List A → List A
    sift_up zero j q = q
    sift_up (suc fuel) j q =
        let i = (j - 1) / 2 in
        let next = sift_up fuel i (swap q i j) in if i == j || not (less q j i) then q else next

    -- The child that comes first.
    unfoldable pub first_child : ℕ → ℕ → List A → ℕ
    first_child n i q =
        if ltb (2 * i + 2) n && less q (2 * i + 2) (2 * i + 1) then 2 * i + 2 else 2 * i + 1

    -- The slice, and whether anything moved. The index grows, so the length is fuel enough.
    unfoldable pub sift_down : ℕ → ℕ → ℕ → List A → List A × Bool
    sift_down zero n i q = (q, false)
    sift_down (suc fuel) n i q =
        let j = first_child n i q in
        let next = sift_down fuel n j (swap q i j) in
        if leb n (2 * i + 1) || not (less q j i) then (q, false) else (next.0, true)

    unfoldable pub push : A → List A → List A
    unfolding sift_up
    push x q = sift_up (length q) (length q) (q ++ (x ∷ []))

    -- The item and the rest; the source calls it on a queue that is not empty.
    unfoldable pub pop : List A → Option (A × List A)
    unfolding sift_down swap take_last
    pop q =
        let n = length q - 1 in let moved = (sift_down n n 0 (swap q 0 n)).0 in take_last n moved

    unfoldable pub fix : ℕ → List A → List A
    unfolding sift_up sift_down
    fix i q =
        let down = sift_down (length q) (length q) i q in
        if down.1 then down.0 else sift_up i i down.0
