-- ===== src/Merge/Graph.antt =====
-- The commits that a walk over parents reaches, and what the pushes of merge.go put into the queue.
use go_repo_dojo.Base.{
  ℕ, suc, ◌+◌, ◌≤◌, ◌≡◌, refl, sym, ap, ◌∙◌, subst, true, ◌⊎◌, inl, inr, List, [], ◌∷◌, Bytes,
  bytes_eq_iff, bytes_eq_refl, Result-cases, ◌≢◌, ◌<◌, All, ok, err, >>=-eq-ok, Error, arith,
}
use go_repo_dojo.Hex.{encode_to_string}
use go_repo_dojo.Hash.{Hash, hex, bytes, hash_equal}
use go_repo_dojo.Repo.{Repo, Object, new_object}
use go_repo_dojo.Heap.{push}
use go_repo_dojo.Heap.Kept.{total, Permᴰ-total, Permᴰ-All, Permᴰ-Memᴰ, push-Permᴰ}
use go_repo_dojo.Merge.{
  CommitParentKind, CommitParent, Queue, newer, same_oid, parent_oids_of, push_parent, push_all,
  timestamp_or_zero,
}
use mathlib.Core.List.{Permᴰ, Memᴰ}
use mathlib.Core.List.Permᴰ
use mathlib.Core.List.Memᴰ

-- Two hashes with the same hexadecimal name; the names are all that the walks compare.
pub same_oid-hex : (a b : Hash) → same_oid a b ≡ true → hex a ≡ hex b
unfolding same_oid hash_equal hex
same_oid-hex a b h =
    let same : bytes a ≡ bytes b = (bytes_eq_iff (bytes a) (bytes b)).0 h in
    ap encode_to_string same

pub same_oid_refl : (a : Hash) → same_oid a a ≡ true
unfolding same_oid hash_equal
same_oid_refl a = bytes_eq_refl (bytes a)

pub same_oid_sym : (a b : Hash) → same_oid a b ≡ same_oid b a
unfolding same_oid hash_equal
same_oid_sym a b =
    ground (arith, bytes_eq_iff (bytes a) (bytes b), bytes_eq_iff (bytes b) (bytes a))

-- `b` is a parent of the commit `a`.
abbrev pub Parent : Repo → Hash → Hash → Type 0
Parent repo a b = (o : Object) × (new_object repo a true ≡ ok o) × Memᴰ b (parent_oids_of o.commit)

-- The walks from a commit over parents.
pub data Walk (repo : Repo) (a : Hash) : Hash → Type 0 where
  here : Walk repo a a
  step : {b c : Hash} → Walk repo a b → Parent repo b c → Walk repo a c

-- A walk leads to a hash of this name.
abbrev pub Named : Repo → Hash → Bytes → Type 0
Named repo a name = (c : Hash) × Walk repo a c × (hex c ≡ name)

-- A walk of one step at least.
abbrev pub Descends : Repo → Hash → Hash → Type 0
Descends repo a c = (b : Hash) × Walk repo a b × Parent repo b c

pub Walk-prepend : {repo : Repo} {a b c : Hash} → Parent repo a b → Walk repo b c → Walk repo a c
Walk-prepend p here = step here p
Walk-prepend p (step w q) = step (Walk-prepend p w) q

-- The first step of a walk.
pub Walk-cases :
    {repo : Repo} {a c : Hash}
    → Walk repo a c
    → (a ≡ c) ⊎ ((b : Hash) × Parent repo a b × Walk repo b c)
Walk-cases here = inl refl
Walk-cases {repo} {a} {c} (step {b} w p) = elim (Walk-cases w) [
  | inl e ↦ inr (c, subst (λ x. Parent repo x c) (sym e) p, here)
  | inr (d, q, v) ↦ inr (d, q, step v p)
]

-- Weights by name: a readable object weighs more than its parents together, which is possible where
-- no commit is its own ancestor.
abbrev pub parents_weight : (Bytes → ℕ) → List Hash → ℕ
parents_weight w oids = total (λ (p : Hash). w (hex p)) oids

abbrev pub Weighs : Repo → (Bytes → ℕ) → Type 0
Weighs repo w =
    (a : Hash) (o : Object)
    → new_object repo a true ≡ ok o
    → suc (parents_weight w (parent_oids_of o.commit)) ≤ w (hex a)

total-Memᴰ : {A : Type 0} (f : A → ℕ) {x : A} (xs : List A) → Memᴰ x xs → f x ≤ total f xs
total-Memᴰ f [] m = elim m [ ]
total-Memᴰ f (y ∷ xs) (Memᴰ.head e) = let same = ap f e in omega arith
total-Memᴰ f (y ∷ xs) (Memᴰ.tail m) = let below = total-Memᴰ f xs m in omega arith

module _ (repo : Repo) (w : Bytes → ℕ) (weighs : Weighs repo w) where
  Parent-lighter : (a b : Hash) → Parent repo a b → w (hex b) < w (hex a)
  Parent-lighter a b (o, read, m) =
      let sum = total-Memᴰ (λ (p : Hash). w (hex p)) (parent_oids_of o.commit) m in
      omega (arith, weighs a o read)

  pub Walk-lighter : {a b : Hash} → Walk repo a b → w (hex b) ≤ w (hex a)
  Walk-lighter here = omega arith
  Walk-lighter (step v p) =
      let before = Walk-lighter v in let last = Parent-lighter _ _ p in omega arith

  pub Descends-lighter : {a b : Hash} → Descends repo a b → w (hex b) < w (hex a)
  Descends-lighter (c, v, p) =
      let before = Walk-lighter v in let last = Parent-lighter _ _ p in omega arith

abbrev pub node_weight : (Bytes → ℕ) → CommitParent → ℕ
node_weight w n = w (hex n.oid)

abbrev pub node_of : CommitParentKind → Hash → ℕ → CommitParent
node_of kind oid ts = record { oid = oid; kind = kind; timestamp = ts }

-- A push puts one node into the queue, whose object could be read.
pub push_parent-Permᴰ :
    (repo : Repo) (kind : CommitParentKind) (oid : Hash) (q q' : Queue)
    → push_parent repo kind oid q ≡ ok q'
    → (o : Object) × (ts : ℕ) × (new_object repo oid true ≡ ok o)
      × Permᴰ q' (node_of kind oid ts ∷ q)
unfolding push_parent
push_parent-Permᴰ repo kind oid q q' h =
    let (o, read, rest) = >>=-eq-ok (new_object repo oid true) _ h in
    let ts : ℕ = timestamp_or_zero o.commit in
    let same : push newer (node_of kind oid ts) q ≡ q' = cc rest in
    (
      o,
      ts,
      read,
      subst (λ x. Permᴰ x (node_of kind oid ts ∷ q)) same
          (push-Permᴰ newer (node_of kind oid ts) q),
    )

module _ (repo : Repo) (kind : CommitParentKind) where
  -- What holds of the queue and of every new node holds of the queue afterwards.
  pub push_all-All :
      (P : CommitParent → Type 0) (oids : List Hash) (q q' : Queue)
      → push_all repo kind oids q ≡ ok q'
      → ((oid : Hash) (o : Object) (ts : ℕ)
          → Memᴰ oid oids
          → new_object repo oid true ≡ ok o
          → P (node_of kind oid ts))
      → All P q
      → All P q'
  unfolding push_all
  push_all-All P [] q q' h new old = let same : q ≡ q' = cc h in subst (All P) same old
  push_all-All P (oid ∷ oids) q q' h new old =
      let (q1, first, rest) = >>=-eq-ok (push_parent repo kind oid q) _ h in
      let (o, ts, read, perm) = push_parent-Permᴰ repo kind oid q q1 first in
      push_all-All P oids q1 q' rest (λ a b t m. new a b t (Memᴰ.tail m))
        (Permᴰ-All P (Permᴰ.symm perm) (new oid o ts (Memᴰ.head refl) read, old))

  pub push_all-total :
      (w : Bytes → ℕ) (oids : List Hash) (q q' : Queue)
      → push_all repo kind oids q ≡ ok q'
      → total (node_weight w) q' ≡ parents_weight w oids + total (node_weight w) q
  unfolding push_all
  push_all-total w [] q q' h =
      let same : q ≡ q' = cc h in let t = ap (total (node_weight w)) same in omega arith
  push_all-total w (oid ∷ oids) q q' h =
      let (q1, first, rest) = >>=-eq-ok (push_parent repo kind oid q) _ h in
      let (o, ts, read, perm) = push_parent-Permᴰ repo kind oid q q1 first in
      let one = Permᴰ-total (node_weight w) perm in
      let more = push_all-total w oids q1 q' rest in omega arith

  -- Nothing leaves the queue, and every parent comes to stand in it.
  pub push_all-old :
      (oids : List Hash) (q q' : Queue) {n : CommitParent}
      → push_all repo kind oids q ≡ ok q'
      → Memᴰ n q
      → Memᴰ n q'
  unfolding push_all
  push_all-old [] q q' {n} h m = let same : q ≡ q' = cc h in subst (Memᴰ n) same m
  push_all-old (oid ∷ oids) q q' h m =
      let (q1, first, rest) = >>=-eq-ok (push_parent repo kind oid q) _ h in
      let (o, ts, read, perm) = push_parent-Permᴰ repo kind oid q q1 first in
      push_all-old oids q1 q' rest (Permᴰ-Memᴰ (Permᴰ.symm perm) (Memᴰ.tail m))

  pub push_all-new :
      (oids : List Hash) (q q' : Queue) {p : Hash}
      → push_all repo kind oids q ≡ ok q'
      → Memᴰ p oids
      → (ts : ℕ) × Memᴰ (node_of kind p ts) q'
  unfolding push_all
  push_all-new [] q q' h m = absurd (Memᴰ.not-nil m)
  push_all-new (oid ∷ oids) q q' h m =
      let (q1, first, rest) = >>=-eq-ok (push_parent repo kind oid q) _ h in
      let (o, ts, read, perm) = push_parent-Permᴰ repo kind oid q q1 first in
      elim (Memᴰ.cases_cons m) [
        | inl e ↦ (
          ts,
          push_all-old oids q1 q' rest
              (Permᴰ-Memᴰ (Permᴰ.symm perm) (Memᴰ.head (ap (λ x. node_of kind x ts) e))),
        )
        | inr later ↦ push_all-new oids q1 q' rest later
      ]

  -- The only errors are those of reading a parent.
  pub push_parent-ne-err :
      (e : Error) (oid : Hash) (q : Queue)
      → ((oid : Hash) → new_object repo oid true ≢ err e)
      → push_parent repo kind oid q ≢ err e
  unfolding push_parent
  push_parent-ne-err e oid q quiet h = elim (Result-cases (new_object repo oid true)) [
    | inl (o, read) ↦ absurd (cc (rw (read, push_parent) at h))
    | inr (e', read) ↦
        let same : e' ≡ e = cc (rw (read, push_parent) at h) in quiet oid (read ∙ ap err same)
  ]

  pub push_all-ne-err :
      (e : Error) (oids : List Hash) (q : Queue)
      → ((oid : Hash) → new_object repo oid true ≢ err e)
      → push_all repo kind oids q ≢ err e
  unfolding push_all
  push_all-ne-err e [] q quiet h = absurd (cc h)
  push_all-ne-err e (oid ∷ oids) q quiet h = elim (Result-cases (push_parent repo kind oid q)) [
    | inl (q', now) ↦ push_all-ne-err e oids q' quiet (rw (now, push_all) at h)
    | inr (e', now) ↦
        let same : e' ≡ e = cc (rw (now, push_all) at h) in
        push_parent-ne-err e oid q quiet (now ∙ ap err same)
  ]
