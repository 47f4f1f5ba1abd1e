-- ===== src/Heap/Kept.antt =====
-- The operations of the heap keep its items, each as often as it occurs.
use go_repo_dojo.Base.{
  ℕ, zero, suc, ◌+◌, ◌-◌, ◌*◌, ◌/◌, ◌≡◌, refl, ap, ◌∙◌, subst, Bool, not, Bool-cases, inl, inr,
  Option-cases, ◌||◌, some, List, [], ◌∷◌, ◌++◌, ◌==◌, leb, length, take, get_elem?, get_below, All,
  arith,
}
use go_repo_dojo.Heap.{
  set, exchange, swap, less, sift_up, first_child, sift_down, take_last, push, pop, fix,
}
use mathlib.Core.List.{Permᴰ, Memᴰ}
use mathlib.Core.List.Permᴰ

module _ {A : Type 0} where
  abbrev pub total : (A → ℕ) → List A → ℕ
  total f [] = 0
  total f (x ∷ xs) = f x + total f xs

  pub Permᴰ-total : (f : A → ℕ) {xs ys : List A} → Permᴰ xs ys → total f xs ≡ total f ys
  Permᴰ-total f Permᴰ.nil = refl
  Permᴰ-total f (Permᴰ.cons e p) = omega (arith, ap f e, Permᴰ-total f p)
  Permᴰ-total f (Permᴰ.swap d e) = omega (arith, ap f d, ap f e)
  Permᴰ-total f (Permᴰ.trans p q) = Permᴰ-total f p ∙ Permᴰ-total f q

  Permᴰ-length : {xs ys : List A} → Permᴰ xs ys → length xs ≡ length ys
  Permᴰ-length Permᴰ.nil = refl
  Permᴰ-length (Permᴰ.cons e p) = ap suc (Permᴰ-length p)
  Permᴰ-length (Permᴰ.swap d e) = refl
  Permᴰ-length (Permᴰ.trans p q) = Permᴰ-length p ∙ Permᴰ-length q

  pub Permᴰ-All : (P : A → Type 0) {xs ys : List A} → Permᴰ xs ys → All P xs → All P ys
  Permᴰ-All P Permᴰ.nil h = h
  Permᴰ-All P (Permᴰ.cons e p) (hx, h) = (subst P e hx, Permᴰ-All P p h)
  Permᴰ-All P (Permᴰ.swap d e) (hx, (hy, h)) = (subst P e hy, (subst P d hx, h))
  Permᴰ-All P (Permᴰ.trans p q) h = Permᴰ-All P q (Permᴰ-All P p h)

  pub Permᴰ-Memᴰ : {a : A} {xs ys : List A} → Permᴰ xs ys → Memᴰ a xs → Memᴰ a ys
  Permᴰ-Memᴰ Permᴰ.nil m = m
  Permᴰ-Memᴰ (Permᴰ.cons e p) (Memᴰ.head h) = Memᴰ.head (h ∙ e)
  Permᴰ-Memᴰ (Permᴰ.cons e p) (Memᴰ.tail m) = Memᴰ.tail (Permᴰ-Memᴰ p m)
  Permᴰ-Memᴰ (Permᴰ.swap d e) (Memᴰ.head h) = Memᴰ.tail (Memᴰ.head (h ∙ d))
  Permᴰ-Memᴰ (Permᴰ.swap d e) (Memᴰ.tail (Memᴰ.head h)) = Memᴰ.head (h ∙ e)
  Permᴰ-Memᴰ (Permᴰ.swap d e) (Memᴰ.tail (Memᴰ.tail m)) = Memᴰ.tail (Memᴰ.tail m)
  Permᴰ-Memᴰ (Permᴰ.trans p q) m = Permᴰ-Memᴰ q (Permᴰ-Memᴰ p m)

  -- A write trades the old item for the new one.
  set-Permᴰ :
      (q : List A) (i : ℕ) (a b : A) → get_elem? q i ≡ some a → Permᴰ (a ∷ set q i b) (b ∷ q)
  unfolding set
  set-Permᴰ [] i a b h = absurd (cc h)
  set-Permᴰ (x ∷ q) zero a b h = let same : a ≡ x = cc h in Permᴰ.swap same refl
  set-Permᴰ (x ∷ q) (suc i) a b h =
      Permᴰ.trans (Permᴰ.swap refl refl)
        (Permᴰ.trans (Permᴰ.cons refl (set-Permᴰ q i a b h)) (Permᴰ.swap refl refl))

  set-set-Permᴰ :
      (q : List A) (i j : ℕ) (a b : A)
      → get_elem? q i ≡ some a
      → get_elem? q j ≡ some b
      → Permᴰ (set (set q i b) j a) q
  unfolding set
  set-set-Permᴰ [] i j a b h k = absurd (cc h)
  set-set-Permᴰ (x ∷ q) zero zero a b h k =
      let same : a ≡ x = cc h in Permᴰ.cons same (Permᴰ.refl q)
  set-set-Permᴰ (x ∷ q) zero (suc j) a b h k =
      let same : a ≡ x = cc h in
      subst (λ t. Permᴰ (b ∷ set q j a) (t ∷ q)) same (set-Permᴰ q j b a k)
  set-set-Permᴰ (x ∷ q) (suc i) zero a b h k =
      let same : b ≡ x = cc k in
      subst (λ t. Permᴰ (a ∷ set q i b) (t ∷ q)) same (set-Permᴰ q i a b h)
  set-set-Permᴰ (x ∷ q) (suc i) (suc j) a b h k = Permᴰ.cons refl (set-set-Permᴰ q i j a b h k)

  swap-Permᴰ : (q : List A) (i j : ℕ) → Permᴰ (swap q i j) q
  unfolding swap exchange
  swap-Permᴰ q i j = elim (Option-cases (get_elem? q i)) [
    | inl e ↦ rw (e, exchange) (Permᴰ.refl q)
    | inr (a, e) ↦ elim (Option-cases (get_elem? q j)) [
      | inl f ↦ rw (e, f, exchange) (Permᴰ.refl q)
      | inr (b, f) ↦ rw (e, f, exchange) (set-set-Permᴰ q i j a b e f)
    ]
  ]

  -- The last item in front of the others.
  last-Permᴰ :
      (q : List A) (n : ℕ) (x : A)
      → length q ≡ suc n
      → get_elem? q n ≡ some x
      → Permᴰ q (x ∷ take n q)
  last-Permᴰ [] n x l h = absurd (cc h)
  last-Permᴰ (y ∷ []) zero x l h = let same : y ≡ x = cc h in Permᴰ.cons same Permᴰ.nil
  last-Permᴰ (y ∷ z ∷ q) zero x l h = absurd (omega arith)
  last-Permᴰ (y ∷ q) (suc n) x l h =
      Permᴰ.trans (Permᴰ.cons refl (last-Permᴰ q n x (omega arith) h)) (Permᴰ.swap refl refl)

  take_last-Permᴰ :
      (q : List A) (n : ℕ) (x : A)
      → length q ≡ suc n
      → get_elem? q n ≡ some x
      → (rest : List A) × (take_last n q ≡ some (x, rest)) × Permᴰ q (x ∷ rest)
  unfolding take_last
  take_last-Permᴰ q n x l e = (take n q, rw (e, take_last), last-Permᴰ q n x l e)

  module _ (before : A → A → Bool) where
    sift_up-Permᴰ : (fuel j : ℕ) (q : List A) → Permᴰ (sift_up before fuel j q) q
    unfolding sift_up
    sift_up-Permᴰ zero j q = Permᴰ.refl q
    sift_up-Permᴰ (suc fuel) j q =
        let i : ℕ = (j - 1) / 2 in
        elim (Bool-cases (i == j || not (less before q j i))) [
          | inl t ↦ rw t (Permᴰ.refl q)
          | inr t ↦ rw t (Permᴰ.trans (sift_up-Permᴰ fuel i (swap q i j)) (swap-Permᴰ q i j))
        ]

    sift_down-Permᴰ : (fuel n i : ℕ) (q : List A) → Permᴰ (sift_down before fuel n i q).0 q
    unfolding sift_down
    sift_down-Permᴰ zero n i q = Permᴰ.refl q
    sift_down-Permᴰ (suc fuel) n i q =
        let j : ℕ = first_child before n i q in
        elim (Bool-cases (leb n (2 * i + 1) || not (less before q j i))) [
          | inl t ↦ rw t (Permᴰ.refl q)
          | inr t ↦ rw t (Permᴰ.trans (sift_down-Permᴰ fuel n j (swap q i j)) (swap-Permᴰ q i j))
        ]

    pub push-Permᴰ : (x : A) (q : List A) → Permᴰ (push before x q) (x ∷ q)
    unfolding push
    push-Permᴰ x q = Permᴰ.trans (sift_up-Permᴰ (length q) (length q) (q ++ (x ∷ []))) (shifted q)
      where
        shifted : (xs : List A) → Permᴰ (xs ++ (x ∷ [])) (x ∷ xs)
        shifted [] = Permᴰ.refl (x ∷ [])
        shifted (y ∷ xs) = Permᴰ.trans (Permᴰ.cons refl (shifted xs)) (Permᴰ.swap refl refl)

    pub fix-Permᴰ : (i : ℕ) (q : List A) → Permᴰ (fix before i q) q
    unfolding fix
    fix-Permᴰ i q =
        let down = sift_down before (length q) (length q) i q in
        let kept = sift_down-Permᴰ (length q) (length q) i q in
        elim (Bool-cases down.1) [
          | inl t ↦ rw t kept
          | inr t ↦ rw t (Permᴰ.trans (sift_up-Permᴰ i i down.0) kept)
        ]

    -- A queue that is not empty gives an item, and keeps the others.
    pub pop-Permᴰ :
        (y : A) (ys : List A)
        → (x : A) × (rest : List A) × (pop before (y ∷ ys) ≡ some (x, rest))
          × Permᴰ (y ∷ ys) (x ∷ rest)
    unfolding pop
    pop-Permᴰ y ys =
        let q = y ∷ ys in
        let n : ℕ = length q - 1 in
        let moved = (sift_down before n n 0 (swap q 0 n)).0 in
        let kept : Permᴰ moved q =
          Permᴰ.trans (sift_down-Permᴰ n n 0 (swap q 0 n)) (swap-Permᴰ q 0 n) in
        let size : length moved ≡ suc (length ys) = Permᴰ-length kept in
        let count : length moved ≡ suc n = omega arith in
        let (x, e) = get_below moved n (omega arith) in
        let (rest, cut, split) = take_last-Permᴰ moved n x count e in
        (x, rest, cut, Permᴰ.trans (Permᴰ.symm kept) split)
