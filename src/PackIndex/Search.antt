-- ===== src/PackIndex/Search.antt =====
-- The binary search finds a name in a sorted table, and only there.
use go_repo_dojo.Base.{
  ℕ, zero, suc, ◌+◌, ◌-◌, ◌/◌, ◌≤◌, ◌<◌, ◌≡◌, ◌≢◌, ◌⊎◌, refl, sym, ap, ◌∙◌, subst, inl, inr, true,
  false, Bool-cases, Option, none, some, List, [], ◌∷◌, ◌==◌, ltb, Bytes, bytes_eq, bytes_eq_iff,
  bytes_eq_refl, length, get_elem?, get_below, All, All-get_elem?, Result, ok, arith,
}
use native.Mathlib.Decide.{dec_lt}
use go_repo_dojo.Tree.{bytes_less}
use go_repo_dojo.Tree.Sorting.{bytes_less_asym}
use go_repo_dojo.PackIndex.{search_loop}

-- Every name is below all that follow.
unfoldable pub IsIncreasing : List Bytes → Type 0
IsIncreasing [] = Unit {0}
IsIncreasing (x ∷ xs) = All (λ (y : Bytes). bytes_less x y ≡ true) xs × IsIncreasing xs

below_later :
    (oids : List Bytes) (i j : ℕ) (x y : Bytes)
    → IsIncreasing oids
    → i < j
    → get_elem? oids i ≡ some x
    → get_elem? oids j ≡ some y
    → bytes_less x y ≡ true
unfolding IsIncreasing
below_later [] i j x y h l gi gj = absurd (cc gi)
below_later (z ∷ zs) i zero x y h l gi gj = absurd (omega arith)
below_later (z ∷ zs) zero (suc j) x y (hz, h) l gi gj =
    subst (λ (t : Bytes). bytes_less t y ≡ true) (cc gi)
      (All-get_elem? (λ (t : Bytes). bytes_less z t ≡ true) zs j hz gj)
below_later (z ∷ zs) (suc i) (suc j) x y (hz, h) l gi gj =
    below_later zs i j x y h (omega arith) gi gj

bytes_less_irrefl : (x : Bytes) → bytes_less x x ≡ false
bytes_less_irrefl x = elim (Bool-cases (bytes_less x x)) [
  | inl t ↦ bytes_less_asym x x t
  | inr f ↦ f
]

module _ (oids : List Bytes) (oid : Bytes) (increasing : IsIncreasing oids) where
  -- All places of the name are in a range.
  unfoldable pub Places : ℕ → ℕ → Type 0
  Places left right = (j : ℕ) → get_elem? oids j ≡ some oid → (left ≤ j) × (j < right)

  Places-lower :
      (left right mid : ℕ) (x : Bytes)
      → Places left right
      → get_elem? oids mid ≡ some x
      → bytes_less oid x ≡ true
      → Places left mid
  unfolding Places
  Places-lower left right mid x h at less j e = elim (dec_lt j mid) [
    | yes low ↦ ((h j e).0, low)
    | no high ↦ (elim (dec_lt mid j) [
      | yes above ↦
          absurd
            (cc (less, bytes_less_asym x oid (below_later oids mid j x oid increasing above at e)))
      | no same ↦
          let here : j ≡ mid = omega arith in
          let same_name : some oid ≡ some x = sym e ∙ ap (get_elem? oids) here ∙ at in
          let name : oid ≡ x = cc same_name in
          absurd (cc (subst (λ (t : Bytes). bytes_less t x ≡ true) name less, bytes_less_irrefl x))
    ])
  ]

  Places-upper :
      (left right mid : ℕ) (x : Bytes)
      → Places left right
      → get_elem? oids mid ≡ some x
      → bytes_less oid x ≡ false
      → bytes_eq oid x ≡ false
      → Places (mid + 1) right
  unfolding Places
  Places-upper left right mid x h at not_less differ j e = elim (dec_lt mid j) [
    | yes high ↦ (omega arith, (h j e).1)
    | no low ↦ (elim (dec_lt j mid) [
      | yes before ↦ absurd (cc (not_less, below_later oids j mid oid x increasing before e at))
      | no same ↦
          let here : j ≡ mid = omega arith in
          let same_name : some oid ≡ some x = sym e ∙ ap (get_elem? oids) here ∙ at in
          let name : oid ≡ x = cc same_name in
          absurd (cc (differ, ap (λ (t : Bytes). bytes_eq oid t) (sym name) ∙ bytes_eq_refl oid))
    ])
  ]

  not_below : (left right j : ℕ) → ltb left right ≡ false → left ≤ j → j < right → ⊥
  not_below left right j e low high = ground (arith, e)

  -- The name was found at an index where it stands, or it is nowhere.
  abbrev pub Searched : Result (Option ℕ × ℕ) → Type 0
  Searched result =
      ((i : ℕ) × (right : ℕ) × (result ≡ ok (some i, right)) × (get_elem? oids i ≡ some oid))
      ⊎ ((right : ℕ) × (result ≡ ok (none, right)) × ((j : ℕ) → get_elem? oids j ≢ some oid))

  empty_range :
      (left right : ℕ)
      → ltb left right ≡ false
      → Places left right
      → (j : ℕ) → get_elem? oids j ≢ some oid
  unfolding Places
  empty_range left right e h j at =
      let (low, high) = h j at in absurd (not_below left right j e low high)

  module _ (oid_at : ℕ → Result Bytes)
      (reads : (i : ℕ) (x : Bytes) → get_elem? oids i ≡ some x → oid_at i ≡ ok x) where
    abbrev pub Searches : ℕ → Type 0
    Searches fuel =
        (left right : ℕ)
        → right ≤ length oids
        → right - left ≤ fuel
        → Places left right
        → Searched (search_loop oid_at oid fuel left right)

    mid_bounds :
        (left right : ℕ)
        → left < right
        → (left ≤ left + (right - left) / 2) × (left + (right - left) / 2 < right)
    mid_bounds left right h = omega arith

    round :
        (fuel left right : ℕ) (x : Bytes)
        → Searches fuel
        → right ≤ length oids
        → right - left ≤ suc fuel
        → Places left right
        → ltb left right ≡ true
        → get_elem? oids (left + (right - left) / 2) ≡ some x
        → Searched (search_loop oid_at oid (suc fuel) left right)
    unfolding search_loop Places
    round fuel left right x later fits enough h below at =
        let mid = left + (right - left) / 2 in
        let (low, high) = mid_bounds left right (ground (arith, below)) in
        let here = reads mid x at in
        elim (Bool-cases (bytes_eq oid x)) [
          | inl same ↦ inl (
            mid,
            right,
            rw (below, here, same) refl,
            at ∙ ap some (sym ((bytes_eq_iff oid x).0 same)),
          )
          | inr differ ↦ (elim (Bool-cases (bytes_less oid x)) [
            | inl less ↦
                let lower = Places-lower left right mid x h at less in
                (elim (Bool-cases (mid == 0)) [
                  | inl z ↦ inr (
                    right,
                    rw (below, here, differ, less, z) refl,
                    λ j e. none_below mid j z (lower j e).1,
                  )
                  | inr nz ↦
                      rw (below, here, differ, less, nz, search_loop)
                        (later left mid (omega (arith, high, fits))
                          (omega (arith, low, high, enough)) lower)
                ])
            | inr more ↦
                rw (below, here, differ, more, search_loop)
                  (later (mid + 1) right fits (omega (arith, low, enough))
                    (Places-upper left right mid x h at more differ))
          ])
        ]
      where
        none_below : (m j : ℕ) → (m == 0) ≡ true → j < m → ⊥
        none_below m j z l = ground (arith, z)

    -- In a sorted table, with as much fuel as there are indices between the bounds, the search ends. It
    -- finds a place of the name, if all its places are between the bounds.
    pub search_loop_lem : (fuel : ℕ) → Searches fuel
    unfolding search_loop
    search_loop_lem zero left right fits enough h =
        let past : ltb left right ≡ false = ground arith in
        inr (right, rw past refl, empty_range left right past h)
    search_loop_lem (suc fuel) left right fits enough h = elim (Bool-cases (ltb left right)) [
      | inr past ↦ inr (right, rw past refl, empty_range left right past h)
      | inl below ↦
          let (x, at) =
            get_below oids (left + (right - left) / 2)
              (in_table left right (length oids) below fits) in
          round fuel left right x (search_loop_lem fuel) fits enough h below at
    ]
      where
        in_table : (l r n : ℕ) → ltb l r ≡ true → r ≤ n → l + (r - l) / 2 < n
        in_table l r n below fits = ground (arith, below)
