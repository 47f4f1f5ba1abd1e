-- ===== src/Iterator/Included.antt =====
-- What an inclusion puts into the queue of the object iterator, where the depth is not bounded.
use go_repo_dojo.Base.{
  ℕ, suc, ◌+◌, ◌≤◌, ◌≡◌, refl, sym, ap, ◌∙◌, subst, false, Bool-cases, ◌⊎◌, inl, inr, Option, none,
  some, List, [], ◌∷◌, ◌++◌, Bytes, map, contains, ok, arith,
}
use go_repo_dojo.Hash.{Hash, hex}
use go_repo_dojo.Heap.Kept.{total}
use go_repo_dojo.Iterator.{
  ObjectIteratorOptions, OidQueueEntry, ObjectIterator, include_at_depth, include_refs,
}
use mathlib.Core.List.{Memᴰ}
use mathlib.Core.List.Memᴰ

abbrev pub oid_of : OidQueueEntry → Hash
oid_of e = e.oid

abbrev pub oids : ObjectIterator → List Hash
oids it = map oid_of it.queue

-- The work that a queue stands for: one for each entry and its weight.
abbrev pub entry_weight : (Bytes → ℕ) → OidQueueEntry → ℕ
entry_weight w e = suc (w (hex e.oid))

abbrev pub ref_weight : (Bytes → ℕ) → Option Hash → ℕ
ref_weight w none = 0
ref_weight w (some h) = suc (w (hex h))

total-append :
    {A : Type 0} (f : A → ℕ) (xs ys : List A) → total f (xs ++ ys) ≡ total f xs + total f ys
total-append f [] ys = omega arith
total-append f (x ∷ xs) ys = let rest = total-append f xs ys in omega arith

map-append {ℓ κ} :
    {A : Type ℓ} {B : Type κ} (f : A → B) (xs ys : List A) → map f (xs ++ ys) ≡ map f xs ++ map f ys
map-append f [] ys = refl
map-append f (x ∷ xs) ys = ap (◌∷◌ (f x)) (map-append f xs ys)

pub record Includes (w : Bytes → ℕ) (refs : List (Option Hash)) (it it' : ObjectIterator)
    : Type 0 where
  pub same_excludes : it'.excludes ≡ it.excludes
  pub old : (c : Hash) → Memᴰ c (oids it) → Memᴰ c (oids it')
  pub new :
      (c : Hash) → Memᴰ (some c) refs → contains it.excludes (hex c) ≡ false → Memᴰ c (oids it')
  pub back : (c : Hash) → Memᴰ c (oids it') → Memᴰ c (oids it) ⊎ Memᴰ (some c) refs
  pub bounded :
      total (entry_weight w) it'.queue ≤ total (ref_weight w) refs + total (entry_weight w) it.queue

module _ (opts : ObjectIteratorOptions) (unbounded : opts.max_depth ≡ 0) (w : Bytes → ℕ) where
  include_at_depth-Includes :
      (oid : Hash) (depth : ℕ) (it : ObjectIterator)
      → Includes w (some oid ∷ []) it (include_at_depth opts oid depth it)
  unfolding include_at_depth
  include_at_depth-Includes oid depth it =
      rw (unbounded, include_at_depth)
        (elim (Bool-cases (contains it.excludes (hex oid))) [
          | inl known ↦ rw known (record {
            same_excludes = refl;
            old = λ c m. m;
            new = λ c m fresh. elim (Memᴰ.cases_cons m) [
              | inl e ↦
                  let same : c ≡ oid = cc e in
                  absurd
                    (cc (sym known ∙ ap (λ x. contains it.excludes (hex x)) (sym same) ∙ fresh))
              | inr more ↦ absurd (Memᴰ.not-nil more)
            ];
            back = λ c m. inl m;
            bounded = omega arith;
          })
          | inr fresh ↦
              let entry : OidQueueEntry = record { oid = oid; depth = depth } in
              let names = map-append oid_of it.queue (entry ∷ []) in
              rw fresh (record {
                same_excludes = refl;
                old = λ c m. subst (Memᴰ c) (sym names) (Memᴰ.append_left (oid ∷ []) m);
                new = λ c m f. elim (Memᴰ.cases_cons m) [
                  | inl e ↦
                      let same : c ≡ oid = cc e in
                      subst (Memᴰ c) (sym names) (Memᴰ.append_right (oids it) (Memᴰ.head same))
                  | inr more ↦ absurd (Memᴰ.not-nil more)
                ];
                back = λ c m. elim (Memᴰ.append_cases (oids it) (subst (Memᴰ c) names m)) [
                  | inl before ↦ inl before
                  | inr last ↦ inr (Memᴰ.head (ap some (Memᴰ.eq_of_singleton last)))
                ];
                bounded = omega (arith, total-append (entry_weight w) it.queue (entry ∷ []));
              })
        ])

  pub include_refs-Includes :
      (refs : List (Option Hash)) (depth : ℕ) (it it' : ObjectIterator)
      → include_refs opts refs depth it ≡ ok it'
      → Includes w refs it it'
  unfolding include_refs
  include_refs-Includes [] depth it it' h =
      let same : it ≡ it' = cc h in
      subst (Includes w [] it) same (record {
        same_excludes = refl;
        old = λ c m. m;
        new = λ c m f. absurd (Memᴰ.not-nil m);
        back = λ c m. inl m;
        bounded = omega arith;
      })
  include_refs-Includes (none ∷ refs) depth it it' h = absurd (cc h)
  include_refs-Includes (some oid ∷ refs) depth it it' h =
      let mid = include_at_depth opts oid depth it in
      let first = include_at_depth-Includes oid depth it in
      let rest = include_refs-Includes refs depth mid it' h in
      let bound1 = first.bounded in
      let bound2 = rest.bounded in
      record {
        same_excludes = rest.same_excludes ∙ first.same_excludes;
        old = λ c m. rest.old c (first.old c m);
        new = λ c m f. elim (Memᴰ.cases_cons m) [
          | inl e ↦ rest.old c (first.new c (Memᴰ.head e) f)
          | inr more ↦ rest.new c more (ap (λ x. contains x (hex c)) first.same_excludes ∙ f)
        ];
        back = λ c m. elim (rest.back c m) [
          | inl earlier ↦ elim (first.back c earlier) [
            | inl before ↦ inl before
            | inr now ↦ inr (Memᴰ.head (Memᴰ.eq_of_singleton now))
          ]
          | inr later ↦ inr (Memᴰ.tail later)
        ];
        bounded = omega arith;
      }
