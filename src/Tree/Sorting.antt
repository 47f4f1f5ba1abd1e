-- ===== src/Tree/Sorting.antt =====
-- The sorting of a tree's entries only moves them, and the order of strings.
use go_repo_dojo.Base.{
  ◌≡◌, refl, Bool, true, false, List, [], ◌∷◌, map, arith, if◌then◌else◌, Bytes, All,
}
use go_repo_dojo.Tree.{bytes_less, insert_by, sort_by}

module _ {ℓ} {A : Type ℓ} {B : Type ℓ} (f : A → B) (ka : A → Bytes) (kb : B → Bytes) where
  insert_by-map :
      (x : A) (xs : List A)
      → ((a : A) → kb (f a) ≡ ka a)
      → insert_by kb (f x) (map f xs) ≡ map f (insert_by ka x xs)
  unfolding insert_by
  insert_by-map x [] h = refl
  insert_by-map x (y ∷ xs) h = rw (h x, h y, insert_by-map x xs h) (go (bytes_less (ka y) (ka x)))
    where
      go :
          (b : Bool)
          → (if b then f y ∷ map f (insert_by ka x xs) else f x ∷ f y ∷ map f xs)
            ≡ map f (if b then y ∷ insert_by ka x xs else x ∷ y ∷ xs)
      go true = refl
      go false = refl

  -- Sorting commutes with a map that keeps the keys.
  pub sort_by-map :
      (xs : List A) → ((a : A) → kb (f a) ≡ ka a) → sort_by kb (map f xs) ≡ map f (sort_by ka xs)
  unfolding sort_by
  sort_by-map [] h = refl
  sort_by-map (x ∷ xs) h = rw (sort_by-map xs h) (insert_by-map x (sort_by ka xs) h)

module _ {ℓ κ} {A : Type ℓ} (key : A → Bytes) (P : A → Type κ) where
  insert_by-All : (x : A) (xs : List A) → P x → All P xs → All P (insert_by key x xs)
  unfolding insert_by
  insert_by-All x [] px h = (px, h)
  insert_by-All x (y ∷ xs) px (py, h) = go (bytes_less (key y) (key x)) (insert_by-All x xs px h)
    where
      go :
          (b : Bool)
          → All P (insert_by key x xs)
          → All P (if b then y ∷ insert_by key x xs else x ∷ y ∷ xs)
      go true r = (py, r)
      go false r = (px, (py, h))

  pub sort_by-All : (xs : List A) → All P xs → All P (sort_by key xs)
  unfolding sort_by
  sort_by-All [] h = h
  sort_by-All (x ∷ xs) (px, h) = insert_by-All x (sort_by key xs) px (sort_by-All xs h)

-- Of two strings at most one is less.
pub bytes_less_asym : (a b : Bytes) → bytes_less a b ≡ true → bytes_less b a ≡ false
unfolding bytes_less
bytes_less_asym [] [] h = refl
bytes_less_asym [] (y ∷ b) h = refl
bytes_less_asym (x ∷ a) [] h = absurd (cc h)
bytes_less_asym (x ∷ a) (y ∷ b) h = ground (arith, bytes_less_asym a b)
