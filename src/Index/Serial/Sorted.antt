-- ===== src/Index/Serial/Sorted.antt =====
-- The list of entries that `Write` makes: what is in it, and its order.
use go_repo_dojo.Base.{
  ℕ, zero, suc, ◌≤◌, ◌≡◌, ◌⊎◌, refl, sym, subst, ap, inl, inr, Bool, Bool-cases, true, false,
  Option, none, some, List, [], ◌∷◌, ◌++◌, if◌then◌else◌, Bytes, bytes_eq, bytes_eq_iff, All,
  All-append, arith,
}
use mathlib.Core.List.{Memᴰ}
use mathlib.Core.List.Memᴰ
use go_repo_dojo.Tree.{bytes_less}
use go_repo_dojo.Index.{IndexEntry, Stages, Index}
use go_repo_dojo.Index.Serial.{
  SortedEntry, entry_less, insert_entry, sort_entries, stage_entry, collect, sorted_entries,
}

abbrev pub at_stage : ℕ → Stages → Option IndexEntry
at_stage zero s = s.stage0
at_stage (suc zero) s = s.stage1
at_stage (suc (suc zero)) s = s.stage2
at_stage (suc (suc (suc zero))) s = s.stage3
at_stage (suc (suc (suc (suc n)))) s = none

-- The map holds the entry under the path and the stage.
abbrev pub Held : List (Bytes × Stages) → SortedEntry → Type 0
Held m x = (s : Stages) × Memᴰ (x.path, s) m × (at_stage x.stage s ≡ some x.entry)

-- By the path, and by the stage where the paths are the same.
abbrev pub Precedes : SortedEntry → SortedEntry → Type 0
Precedes a b = (bytes_less a.path b.path ≡ true) ⊎ ((a.path ≡ b.path) × (a.stage ≤ b.stage))

-- Neighbours stand in order.
abbrev pub InOrder : List SortedEntry → Type 0
InOrder [] = Unit {0}
InOrder (a ∷ []) = Unit {0}
InOrder (a ∷ b ∷ es) = Precedes a b × InOrder (b ∷ es)

bytes_less-total : (a b : Bytes) → bytes_less a b ≡ false → (bytes_less b a ≡ true) ⊎ (b ≡ a)
unfolding bytes_less
bytes_less-total [] [] h = inr refl
bytes_less-total [] (y ∷ b) h = absurd (cc h)
bytes_less-total (x ∷ a) [] h = inl refl
bytes_less-total (x ∷ a) (y ∷ b) h = ground (arith, bytes_less-total a b)

less-Precedes : (a b : SortedEntry) → entry_less a b ≡ true → Precedes a b
unfolding entry_less
less-Precedes a b h = elim (Bool-cases (bytes_eq a.path b.path)) [
  | inl e ↦ inr ((bytes_eq_iff a.path b.path).0 e, ground (arith, rw e at h))
  | inr e ↦ inl (rw e at h)
]

not_less-Precedes : (a b : SortedEntry) → entry_less a b ≡ false → Precedes b a
unfolding entry_less
not_less-Precedes a b h = elim (Bool-cases (bytes_eq a.path b.path)) [
  | inl e ↦
      let same : a.path ≡ b.path = (bytes_eq_iff a.path b.path).0 e in
      inr (sym same, ground (arith, rw e at h))
  | inr e ↦ elim (bytes_less-total a.path b.path (rw e at h)) [
    | inl l ↦ inl l
    | inr same ↦ absurd (cc (e, (bytes_eq_iff a.path b.path).1 (sym same)))
  ]
]

module _ (P : SortedEntry → Type 0) where
  insert_entry-All :
      (e : SortedEntry) (es : List SortedEntry) → P e → All P es → All P (insert_entry e es)
  unfolding insert_entry
  insert_entry-All e [] pe h = (pe, h)
  insert_entry-All e (f ∷ es) pe (pf, h) = elim (Bool-cases (entry_less f e)) [
    | inl t ↦ rw t (pf, insert_entry-All e es pe h)
    | inr t ↦ rw t (pe, (pf, h))
  ]

  sort_entries-All : (es : List SortedEntry) → All P es → All P (sort_entries es)
  unfolding sort_entries
  sort_entries-All [] h = h
  sort_entries-All (e ∷ es) (pe, h) =
      insert_entry-All e (sort_entries es) pe (sort_entries-All es h)

insert_entry-InOrder :
    (e : SortedEntry) (es : List SortedEntry) → InOrder es → InOrder (insert_entry e es)
unfolding insert_entry
insert_entry-InOrder e [] h = tt
insert_entry-InOrder e (f ∷ []) h = elim (Bool-cases (entry_less f e)) [
  | inl t ↦ rw t (less-Precedes f e t, tt)
  | inr t ↦ rw t (not_less-Precedes f e t, tt)
]
insert_entry-InOrder e (f ∷ g ∷ es) (fg, h) = elim (Bool-cases (entry_less f e)) [
  | inr t ↦ rw t (not_less-Precedes f e t, (fg, h))
  | inl t ↦ rw t (behind (entry_less g e) (insert_entry-InOrder e (g ∷ es) h) t)
]
  where
    behind :
        (b : Bool)
        → InOrder (if b then g ∷ insert_entry e es else e ∷ g ∷ es)
        → entry_less f e ≡ true
        → InOrder (f ∷ (if b then g ∷ insert_entry e es else e ∷ g ∷ es))
    behind true r t = (fg, r)
    behind false r t = (less-Precedes f e t, r)

sort_entries-InOrder : (es : List SortedEntry) → InOrder (sort_entries es)
unfolding sort_entries
sort_entries-InOrder [] = tt
sort_entries-InOrder (e ∷ es) = insert_entry-InOrder e (sort_entries es) (sort_entries-InOrder es)

-- Anything in the list is in the list with one entry more.
Memᴰ-insert_entry :
    (x e : SortedEntry) (es : List SortedEntry)
    → (Memᴰ x es → Memᴰ x (insert_entry e es)) × Memᴰ e (insert_entry e es)
unfolding insert_entry
Memᴰ-insert_entry x e [] = (λ m. Memᴰ.tail m, Memᴰ.head refl)
Memᴰ-insert_entry x e (f ∷ es) = elim (Bool-cases (entry_less f e)) [
  | inr t ↦ rw t (λ m. Memᴰ.tail m, Memᴰ.head refl)
  | inl t ↦ rw t (go (Memᴰ-insert_entry x e es))
]
  where
    go :
        (Memᴰ x es → Memᴰ x (insert_entry e es)) × Memᴰ e (insert_entry e es)
        → (Memᴰ x (f ∷ es) → Memᴰ x (f ∷ insert_entry e es)) × Memᴰ e (f ∷ insert_entry e es)
    go (later, here) = (
      λ m. elim m [ Memᴰ.head q ↦ Memᴰ.head q | Memᴰ.tail n ↦ Memᴰ.tail (later n) ],
      Memᴰ.tail here,
    )

Memᴰ-sort_entries : (x : SortedEntry) (es : List SortedEntry) → Memᴰ x es → Memᴰ x (sort_entries es)
unfolding sort_entries
Memᴰ-sort_entries x [] m = m
Memᴰ-sort_entries x (e ∷ es) (Memᴰ.head q) =
    subst (λ (y : SortedEntry). Memᴰ y (insert_entry e (sort_entries es))) (sym q)
      ((Memᴰ-insert_entry x e (sort_entries es)).1)
Memᴰ-sort_entries x (e ∷ es) (Memᴰ.tail m) =
    (Memᴰ-insert_entry x e (sort_entries es)).0 (Memᴰ-sort_entries x es m)

-- One stage of a path.
stage_entry-All :
    (P : SortedEntry → Type 0) (p : Bytes) (n : ℕ) (o : Option IndexEntry)
    → ((e : IndexEntry) → o ≡ some e → P (record { path = p; stage = n; entry = e }))
    → All P (stage_entry p n o)
unfolding stage_entry
stage_entry-All P p n none h = tt
stage_entry-All P p n (some e) h = (h e refl, tt)

collect-Held :
    (m whole : List (Bytes × Stages))
    → ((x : Bytes × Stages) → Memᴰ x m → Memᴰ x whole)
    → All (Held whole) (collect m)
unfolding collect
collect-Held [] whole h = tt
collect-Held ((p, s) ∷ m) whole h =
    let there = h (p, s) (Memᴰ.head refl) in
    let P = Held whole in
    All-append P _ _ (stage_entry-All P p 0 s.stage0 (λ e q. (s, there, q))) (
      All-append P _ _ (stage_entry-All P p 1 s.stage1 (λ e q. (s, there, q))) (
        All-append P _ _ (stage_entry-All P p 2 s.stage2 (λ e q. (s, there, q))) (
          All-append P _ _ (stage_entry-All P p 3 s.stage3 (λ e q. (s, there, q)))
            (collect-Held m whole (λ x n. h x (Memᴰ.tail n))))))

Memᴰ-stage_entry :
    (p : Bytes) (n : ℕ) (o : Option IndexEntry) (e : IndexEntry)
    → o ≡ some e
    → Memᴰ (record { path = p; stage = n; entry = e }) (stage_entry p n o)
unfolding stage_entry
Memᴰ-stage_entry p n none e h = absurd (cc h)
Memᴰ-stage_entry p n (some f) e h = Memᴰ.head (
    ap
      (λ (o : Option IndexEntry). record {
        path = p;
        stage = n;
        entry = (elim o [ none ↦ f | some g ↦ g ]);
      })
      (sym h))

abbrev four : Bytes × Stages → List SortedEntry → List SortedEntry
four (p, s) rest =
    stage_entry p 0 s.stage0
    ++ (stage_entry p 1 s.stage1
        ++ (stage_entry p 2 s.stage2 ++ (stage_entry p 3 s.stage3 ++ rest)))

abbrev listed : Bytes → ℕ → IndexEntry → SortedEntry
listed p n e = record { path = p; stage = n; entry = e }

Memᴰ-four :
    (p : Bytes) (n : ℕ) (e : IndexEntry) (s : Stages) (rest : List SortedEntry)
    → at_stage n s ≡ some e
    → Memᴰ (listed p n e) (four (p, s) rest)
Memᴰ-four p zero e s rest h = Memᴰ.append_left _ (Memᴰ-stage_entry p 0 s.stage0 e h)
Memᴰ-four p (suc zero) e s rest h =
    Memᴰ.append_right (stage_entry p 0 s.stage0)
      (Memᴰ.append_left _ (Memᴰ-stage_entry p 1 s.stage1 e h))
Memᴰ-four p (suc (suc zero)) e s rest h = Memᴰ.append_right (stage_entry p 0 s.stage0) (
    Memᴰ.append_right (stage_entry p 1 s.stage1)
      (Memᴰ.append_left _ (Memᴰ-stage_entry p 2 s.stage2 e h)))
Memᴰ-four p (suc (suc (suc zero))) e s rest h = Memᴰ.append_right (stage_entry p 0 s.stage0) (
    Memᴰ.append_right (stage_entry p 1 s.stage1) (
      Memᴰ.append_right (stage_entry p 2 s.stage2)
        (Memᴰ.append_left _ (Memᴰ-stage_entry p 3 s.stage3 e h))))
Memᴰ-four p (suc (suc (suc (suc n)))) e s rest h = absurd (cc h)

Memᴰ-collect :
    (p : Bytes) (n : ℕ) (e : IndexEntry) (s : Stages) (m : List (Bytes × Stages))
    → Memᴰ (p, s) m
    → at_stage n s ≡ some e
    → Memᴰ (listed p n e) (collect m)
unfolding collect
Memᴰ-collect p n e s [] d h = elim d [ ]
Memᴰ-collect p n e s (y ∷ m) (Memᴰ.head q) h =
    subst (λ (z : Bytes × Stages). Memᴰ (listed p n e) (four z (collect m))) q
      (Memᴰ-four p n e s (collect m) h)
Memᴰ-collect p n e s ((p', s') ∷ m) (Memᴰ.tail d) h =
    Memᴰ.append_right (stage_entry p' 0 s'.stage0) (
      Memᴰ.append_right (stage_entry p' 1 s'.stage1) (
        Memᴰ.append_right (stage_entry p' 2 s'.stage2)
          (Memᴰ.append_right (stage_entry p' 3 s'.stage3) (Memᴰ-collect p n e s m d h))))

-- Exactly what the map holds, in order.
abbrev pub IsListing : List (Bytes × Stages) → List SortedEntry → Type 0
IsListing m es = InOrder es × All (Held m) es × ((x : SortedEntry) → Held m x → Memᴰ x es)

pub sorted_entries-IsListing : (idx : Index) → IsListing idx.entries (sorted_entries idx)
unfolding sorted_entries
sorted_entries-IsListing idx = (
  sort_entries-InOrder (collect idx.entries),
  sort_entries-All (Held idx.entries) (collect idx.entries)
      (collect-Held idx.entries idx.entries (λ x m. m)),
  λ x held.
      let (s, there, at) = held in
      Memᴰ-sort_entries x (collect idx.entries)
        (Memᴰ-collect x.path x.stage x.entry s idx.entries there at),
)
