-- ===== src/Iterator/Drained.antt =====
-- The object iterator called until it returns nothing: it ends, and returns every object on a route
-- once.
use go_repo_dojo.Base.{
  ltb, ◌&&◌, ℕ, zero, suc, ◌+◌, ◌≤◌, ◌<◌, ◌≡◌, ◌≢◌, refl, ap, ◌∙◌, subst, ◌⊎◌, inl, inr, Option,
  none, some, List, [], ◌∷◌, map, Bytes, All, Result, Result-cases, ok, err, Error, after,
  after_loop, Ends, Bool, true, false, Bool-cases, map_set, contains, nil_pointer, ◌>>=◌, arith,
}
use go_repo_dojo.Hash.{Hash, hex}
use go_repo_dojo.Repo.{Repo, Object, new_object}
use go_repo_dojo.Heap.Kept.{total}
use go_repo_dojo.Iterator.{
  ObjectIteratorOptions, OidQueueEntry, ObjectIterator, include_at_depth, include_refs,
  content_refs, include_content_refs, is_wanted, reread, return_object, visit_entry, go_on,
  next_loop, next, keep, drain,
}
use go_repo_dojo.Iterator.Included.{oid_of, entry_weight}
use go_repo_dojo.Iterator.Routes.{
  from, along, Awaits, Wanted, Outweighs, Passes, Yields, Round, visit_entry-Round,
}
use mathlib.Core.List.{Memᴰ}
use mathlib.Core.List.Memᴰ

-- The objects have different names.
abbrev pub Distinct : List Object → Type 0
Distinct [] = Unit {0}
Distinct (o ∷ os) = All (λ (p : Object). hex o.oid ≢ hex p.oid) os × Distinct os

-- The returned objects are wanted ones on a route, each once, and there are no others.
pub record Covers (repo : Repo) (opts : ObjectIteratorOptions) (it : ObjectIterator)
    (os : List Object) : Type 0 where
  pub sound : All (λ (o : Object). Awaits repo opts it o.oid × Wanted repo opts o.oid) os
  pub once : Distinct os
  pub complete :
      (c : Hash)
      → Awaits repo opts it c
      → Wanted repo opts c
      → (x : Object) × (Memᴰ x os × (hex c ≡ hex x.oid))

All-map {ℓ} :
    {A : Type ℓ} (P Q : A → Type 0) (xs : List A) → ((a : A) → P a → Q a) → All P xs → All Q xs
All-map P Q [] f h = tt
All-map P Q (x ∷ xs) f (hx, h) = (f x hx, All-map P Q xs f h)

-- An object could not be read, or a reference was nil.
abbrev pub Failed : Repo → Error → Type 0
Failed repo e =
    (e ≡ nil_pointer) ⊎ ((oid : Hash) × (full : Bool) × (new_object repo oid full ≡ err e))

>>=-eq-err :
    {A B : Type 0} (r : Result A) (f : A → B) {e : Error}
    → (r >>= λ a. ok (f a)) ≡ err e
    → r ≡ err e
>>=-eq-err (ok a) f h = absurd (cc h)
>>=-eq-err (err x) f {e} h = let same : x ≡ e = cc h in ap err same

include_refs-err :
    (opts : ObjectIteratorOptions) (refs : List (Option Hash)) (depth : ℕ) (it : ObjectIterator)
    (e : Error)
    → include_refs opts refs depth it ≡ err e
    → e ≡ nil_pointer
unfolding include_refs
include_refs-err opts [] depth it e h = absurd (cc h)
include_refs-err opts (none ∷ refs) depth it e h =
    elim (Bool-cases (ltb 0 opts.max_depth && ltb opts.max_depth depth)) [
      | inl deep ↦ include_refs-err opts refs depth it e (rw (deep, include_refs) at h)
      | inr near ↦ cc (rw (near, include_refs) at h)
    ]
include_refs-err opts (some oid ∷ refs) depth it e h =
    include_refs-err opts refs depth (include_at_depth opts oid depth it) e h

return_object-err :
    (opts : ObjectIteratorOptions) (repo : Repo) (entry : OidQueueEntry) (o : Object)
    (it : ObjectIterator) (e : Error)
    → return_object opts repo entry o it ≡ err e
    → Failed repo e
unfolding return_object reread
return_object-err opts repo entry o it e h = elim (Bool-cases (is_wanted opts o)) [
  | inr plain ↦ absurd (cc (rw (plain, return_object) at h))
  | inl good ↦
      let k = rw (good, return_object) at h in
      elim (Bool-cases opts.full) [
        | inl full ↦ absurd (cc (rw (full, reread) at k))
        | inr raw ↦ inr (
          entry.oid,
          false,
          >>=-eq-err (new_object repo entry.oid false) _ (rw (raw, reread) at k),
        )
      ]
]

visit_entry-err :
    (opts : ObjectIteratorOptions) (repo : Repo) (entry : OidQueueEntry) (it : ObjectIterator)
    (e : Error)
    → visit_entry opts repo entry it ≡ err e
    → Failed repo e
unfolding visit_entry include_content_refs
visit_entry-err opts repo entry it e h = elim (Bool-cases (contains it.excludes (hex entry.oid))) [
  | inl known ↦ absurd (cc (rw (known, visit_entry) at h))
  | inr fresh ↦
      let k = rw (fresh, visit_entry) at h in
      elim (Result-cases (new_object repo entry.oid true)) [
        | inr (e', read) ↦
            let same : e' ≡ e = cc (rw read at k) in inr (entry.oid, true, read ∙ ap err same)
        | inl (o, read) ↦
            let marked = record it { excludes = map_set (hex entry.oid) true it.excludes } in
            elim (Result-cases
              (include_refs opts (content_refs opts.kind o) (entry.depth + 1) marked)) [
                | inr (e', within) ↦
                    let same : e' ≡ e = cc (rw (read, within) at k) in
                    inl (
                      include_refs-err opts (content_refs opts.kind o) (entry.depth + 1) marked e
                        (within ∙ ap err same))
                | inl (it', within) ↦
                    return_object-err opts repo entry o (record it' { depth = entry.depth }) e
                      (rw (read, within) at k)
              ]
      ]
]

module _ (repo : Repo) (opts : ObjectIteratorOptions) (w : Bytes → ℕ)
    (unbounded : opts.max_depth ≡ 0) (weighs : Outweighs repo opts.kind w) where
  -- What a call of `Next` gives.
  abbrev Given : ObjectIterator → Option Object × ObjectIterator → Type 0
  Given it (none, it') = (c : Hash) → Awaits repo opts it c → Wanted repo opts c → ⊥
  Given it (some x, it') = Yields repo opts w unbounded weighs x it it'

  Passes-Given :
      (it it' : ObjectIterator) (out : Option Object × ObjectIterator)
      → Passes repo opts w unbounded weighs it it'
      → Given it' out
      → Given it out
  Passes-Given it it' (none, last) p g = λ c r wanted. g c (p.forth c r wanted) wanted
  Passes-Given it it' (some x, last) p g =
      let light = p.lighter in
      let lighter = g.lighter in
      record {
        reached = p.back x.oid g.reached;
        wanted = g.wanted;
        back = λ c r. p.back c (g.back c r);
        fresh = g.fresh;
        forth = λ c r wanted. g.forth c (p.forth c r wanted) wanted;
        lighter = omega arith;
      }

  Ends-Given :
      (it it' : ObjectIterator) (r : Option (Result (Option Object × ObjectIterator)))
      → Passes repo opts w unbounded weighs it it'
      → Ends (Given it') (Failed repo) r
      → Ends (Given it) (Failed repo) r
  Ends-Given it it' none p g = g
  Ends-Given it it' (some (ok out)) p g = Passes-Given it it' out p g
  Ends-Given it it' (some (err e)) p g = g

  no_route : (it : ObjectIterator) (c : Hash) → it.queue ≡ [] → Awaits repo opts it c → ⊥
  no_route it c e (from m f) = Memᴰ.not-nil (subst (λ q. Memᴰ c (map oid_of q)) e m)
  no_route it c e (along {a} r p f) = no_route it a e r

  next_loop-Ends :
      (fuel : ℕ) (q : List OidQueueEntry) (it : ObjectIterator)
      → it.queue ≡ q
      → total (entry_weight w) q ≤ fuel
      → Ends (Given it) (Failed repo) (next_loop opts repo fuel q it)
  unfolding next_loop
  next_loop-Ends fuel [] it e enough = λ c r wanted. no_route it c e r
  next_loop-Ends zero (entry ∷ rest) it e enough = absurd (omega arith)
  next_loop-Ends (suc fuel) (entry ∷ rest) it e enough =
      go (λ it' small. next_loop-Ends fuel it'.queue it' refl small)
        (visit_entry opts repo entry (record it { queue = rest })) refl
    where
      onward :
          ((it' : ObjectIterator)
            → total (entry_weight w) it'.queue ≤ fuel
            → Ends (Given it') (Failed repo) (next_loop opts repo fuel it'.queue it'))
          → (out : Option Object × ObjectIterator) → Round repo opts w unbounded weighs it out
          → Ends
              (Given it)
              (Failed repo)
              (go_on opts (λ it'. next_loop opts repo fuel it'.queue it') out)
      onward later (some x, it') round = unfold go_on in round
      onward later (none, it') round =
          let lighter = round.lighter in
          let whole = ap (total (entry_weight w)) e in
          unfold go_on in
          Ends-Given it it' (next_loop opts repo fuel it'.queue it') round (later it' (omega arith))

      go :
          ((it' : ObjectIterator)
            → total (entry_weight w) it'.queue ≤ fuel
            → Ends (Given it') (Failed repo) (next_loop opts repo fuel it'.queue it'))
          → (r : Result (Option Object × ObjectIterator))
          → visit_entry opts repo entry (record it { queue = rest }) ≡ r
          → Ends
              (Given it)
              (Failed repo)
              (after r (go_on opts (λ it'. next_loop opts repo fuel it'.queue it')))
      go later (err x) h = visit_entry-err opts repo entry (record it { queue = rest }) x h
      go later (ok out) h =
          onward later out (visit_entry-Round repo opts w unbounded weighs entry rest it e out h)

  Covers-cons :
      (it it' : ObjectIterator) (x : Object) (os : List Object)
      → Yields repo opts w unbounded weighs x it it'
      → Covers repo opts it' os
      → Covers repo opts it (x ∷ os)
  Covers-cons it it' x os y c = record {
    sound = (
      (y.reached, y.wanted),
      All-map (λ (o : Object). Awaits repo opts it' o.oid × Wanted repo opts o.oid)
          (λ (o : Object). Awaits repo opts it o.oid × Wanted repo opts o.oid) os
          (λ o p. (y.back o.oid p.0, p.1)) c.sound,
    );
    once = (
      All-map (λ (o : Object). Awaits repo opts it' o.oid × Wanted repo opts o.oid)
          (λ (p : Object). hex x.oid ≢ hex p.oid) os (λ o p. y.fresh o.oid p.0) c.sound,
      c.once,
    );
    complete = λ d r wanted. elim (y.forth d r wanted) [
      | inl same ↦ (x, (Memᴰ.head refl, same))
      | inr later ↦ let (z, (m, named)) = c.complete d later wanted in (z, (Memᴰ.tail m, named))
    ];
  }

  drain-Ends :
      (fuel : ℕ) (it : ObjectIterator)
      → total (entry_weight w) it.queue < fuel
      → Ends (Covers repo opts it) (Failed repo) (drain opts repo fuel it)
  unfolding drain next
  drain-Ends zero it enough = absurd (omega arith)
  drain-Ends (suc fuel) it enough =
      go (λ it' small. drain-Ends fuel it' small) (next_loop opts repo (suc fuel) it.queue it)
        (next_loop-Ends (suc fuel) it.queue it refl (omega arith))
    where
      gather :
          (x : Object) (it' : ObjectIterator) (r : Option (Result (List Object)))
          → Yields repo opts w unbounded weighs x it it'
          → Ends (Covers repo opts it') (Failed repo) r
          → Ends (Covers repo opts it) (Failed repo) (after_loop r (λ os. some (ok (x ∷ os))))
      gather x it' none y h = h
      gather x it' (some (ok os)) y h = Covers-cons it it' x os y h
      gather x it' (some (err e)) y h = h

      go :
          ((it' : ObjectIterator)
            → total (entry_weight w) it'.queue < fuel
            → Ends (Covers repo opts it') (Failed repo) (drain opts repo fuel it'))
          → (r : Option (Result (Option Object × ObjectIterator))) → Ends (Given it) (Failed repo) r
          → Ends
              (Covers repo opts it)
              (Failed repo)
              (after_loop r (keep opts (drain opts repo fuel)))
      go later none h = h
      go later (some (err e)) h = h
      go later (some (ok (none, it'))) h =
          unfold keep in
          record { sound = tt; once = tt; complete = λ c r wanted. absurd (h c r wanted) }
      go later (some (ok (some x, it'))) h =
          let lighter = h.lighter in
          unfold keep in gather x it' (drain opts repo fuel it') h (later it' (omega arith))

-- With no bound on the depth, where a readable object weighs at least as much as its references
-- together, each counted with one more, fuel above the weight of what waits is enough for `Next` to
-- be called until it returns nil, or for an error: that of reading an object, or a nil
-- reference. The objects that were returned are those that
-- a route over references leads to, from what waited and past no excluded name: each of them is one
-- (and a commit, if only commits are asked for), no two have one name, and the name of every such
-- object is among theirs.
pub drain_correct :
    (repo : Repo) (opts : ObjectIteratorOptions) (w : Bytes → ℕ) (it : ObjectIterator) (fuel : ℕ)
    → opts.max_depth ≡ 0
    → Outweighs repo opts.kind w
    → total (entry_weight w) it.queue < fuel
    → Ends (Covers repo opts it) (Failed repo) (drain opts repo fuel it)
drain_correct repo opts w it fuel unbounded weighs enough =
    drain-Ends repo opts w unbounded weighs fuel it enough
