-- ===== src/PackIndex/Fanout.antt =====
-- The fanout table bounds the places of a name.
use go_repo_dojo.Base.{
  ℕ, zero, suc, ◌+◌, ◌-◌, ◌≤◌, ◌<◌, ◌≡◌, ◌⊎◌, refl, sym, ap, ◌∙◌, true, false, Bool-cases, inl, inr,
  some, List, [], ◌∷◌, ltb, leb, if◌then◌else◌, Bytes, length, get_elem?, All, All-get_elem?, arith,
  subst,
}
use go_repo_dojo.Tree.{bytes_less}
use go_repo_dojo.PackIndex.{fanout_at}
use go_repo_dojo.PackIndex.Search.{IsIncreasing, Places}

unfoldable pub first_byte : Bytes → ℕ
first_byte [] = 0
first_byte (b ∷ _) = b

-- How many names begin with a byte up to `b`.
unfoldable pub count_upto : ℕ → List Bytes → ℕ
unfolding first_byte
count_upto b [] = 0
count_upto b (x ∷ xs) = (if leb (first_byte x) b then 1 else 0) + count_upto b xs

-- The counts for `n` bytes from `b` on.
unfoldable pub fanout_from : ℕ → ℕ → List Bytes → List ℕ
fanout_from zero b oids = []
fanout_from (suc n) b oids = count_upto b oids ∷ fanout_from n (suc b) oids

pub fanout_at-fanout_from :
    (n b i : ℕ) (oids : List Bytes)
    → i < n
    → fanout_at (fanout_from n b oids) i ≡ count_upto (b + i) oids
unfolding fanout_at fanout_from
fanout_at-fanout_from zero b i oids h = absurd (omega arith)
fanout_at-fanout_from (suc n) b zero oids h = ap (λ (t : ℕ). count_upto t oids) (omega arith)
fanout_at-fanout_from (suc n) b (suc i) oids h =
    subst (λ (t : ℕ). fanout_at (fanout_from n (suc b) oids) i ≡ count_upto t oids) (omega arith)
      (fanout_at-fanout_from n (suc b) i oids (omega arith))

bytes_less_first : (x y : Bytes) → bytes_less x y ≡ true → first_byte x ≤ first_byte y
unfolding bytes_less first_byte
bytes_less_first [] [] h = absurd (cc h)
bytes_less_first [] (b ∷ y) h = omega arith
bytes_less_first (a ∷ x) [] h = absurd (cc h)
bytes_less_first (a ∷ x) (b ∷ y) h = ground (arith, h)

none_upto :
    (b : ℕ) (x : Bytes) (xs : List Bytes)
    → b < first_byte x
    → All (λ (y : Bytes). bytes_less x y ≡ true) xs
    → count_upto b xs ≡ 0
unfolding count_upto
none_upto b x [] h k = refl
none_upto b x (y ∷ xs) h (l, k) = ground (arith, bytes_less_first x y l, none_upto b x xs h k)

pub within_count :
    (b j : ℕ) (oids : List Bytes) (x : Bytes)
    → IsIncreasing oids
    → get_elem? oids j ≡ some x
    → first_byte x ≤ b
    → j < count_upto b oids
unfolding count_upto IsIncreasing
within_count b j [] x h e f = absurd (cc e)
within_count b zero (y ∷ ys) x (hy, h) e f =
    let same : y ≡ x = cc e in
    let up : first_byte y ≤ b = omega (arith, ap first_byte same, f) in ground (arith, up)
within_count b (suc j) (y ∷ ys) x (hy, h) e f =
    let low =
      bytes_less_first y x (All-get_elem? (λ (t : Bytes). bytes_less y t ≡ true) ys j hy e) in
    ground (arith, low, within_count b j ys x h e f)

pub beyond_count :
    (b j : ℕ) (oids : List Bytes) (x : Bytes)
    → IsIncreasing oids
    → get_elem? oids j ≡ some x
    → b < first_byte x
    → count_upto b oids ≤ j
unfolding count_upto IsIncreasing
beyond_count b j [] x h e f = absurd (cc e)
beyond_count b zero (y ∷ ys) x (hy, h) e f =
    let same : y ≡ x = cc e in
    let up : b < first_byte y = omega (arith, ap first_byte same, f) in
    ground (arith, up, none_upto b y ys up hy)
beyond_count b (suc j) (y ∷ ys) x (hy, h) e f = ground (arith, beyond_count b j ys x h e f)

pub count_upto-length : (b : ℕ) (oids : List Bytes) → count_upto b oids ≤ length oids
unfolding count_upto
count_upto-length b [] = omega arith
count_upto-length b (x ∷ xs) = ground (arith, count_upto-length b xs)

pub count_upto-All :
    (oids : List Bytes)
    → All (λ (x : Bytes). first_byte x < 256) oids
    → count_upto 255 oids ≡ length oids
unfolding count_upto
count_upto-All [] h = refl
count_upto-All (x ∷ xs) (hx, h) = ground (arith, count_upto-All xs h)

-- The bounds that the search takes from the table.
pub fanout-Places :
    (oids : List Bytes) (first : ℕ) (oid : Bytes)
    → (increasing : IsIncreasing oids) → first < 256
    → Places oids
        (first ∷ oid)
        increasing
        (if ltb 0 first then fanout_at (fanout_from 256 0 oids) (first - 1) else 0)
        (fanout_at (fanout_from 256 0 oids) first)
unfolding Places first_byte
fanout-Places oids first oid increasing small j e =
    let high = within_count first j oids (first ∷ oid) increasing e (omega arith) in
    let at_first : fanout_at (fanout_from 256 0 oids) first ≡ count_upto first oids =
      fanout_at-fanout_from 256 0 first oids small
      ∙ ap (λ (t : ℕ). count_upto t oids) (omega arith) in
    (lower (Bool-cases (ltb 0 first)), subst (λ (t : ℕ). j < t) (sym at_first) high)
  where
    lower :
        (ltb 0 first ≡ true) ⊎ (ltb 0 first ≡ false)
        → (if ltb 0 first then fanout_at (fanout_from 256 0 oids) (first - 1) else 0) ≤ j
    lower (inr z) = rw z (omega arith)
    lower (inl some_first) =
        let at_before : fanout_at (fanout_from 256 0 oids) (first - 1)
            ≡ count_upto (first - 1) oids =
          fanout_at-fanout_from 256 0 (first - 1) oids (omega arith)
          ∙ ap (λ (t : ℕ). count_upto t oids) (omega arith) in
        rw (some_first, at_before)
          (beyond_count (first - 1) j oids (first ∷ oid) increasing e (ground (arith, some_first)))
