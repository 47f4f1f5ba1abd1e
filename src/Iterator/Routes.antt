-- ===== src/Iterator/Routes.antt =====
-- The routes of the object iterator: from what waits over references, past everything excluded. A
-- round keeps the routes to what was not returned.
use go_repo_dojo.Base.{
  ℕ, ◌+◌, ◌≤◌, ◌<◌, ◌≡◌, ◌≢◌, refl, sym, ap, ◌∙◌, subst, true, false, Bool-cases, ◌⊎◌, inl, inr,
  Option, none, some, List, ◌∷◌, Bytes, bytes_eq, bytes_eq_iff, map, map_set, Names, contains,
  contains-map_set, ok, >>=-eq-ok, arith,
}
use go_repo_dojo.Hash.{Hash, hex}
use go_repo_dojo.Object.{
  ObjectKind, object_kind_blob, object_kind_tree, object_kind_commit, object_kind_tag,
}
use go_repo_dojo.Repo.{Repo, Object, new_object}
use go_repo_dojo.Repo.Renamed.{renamed, new_object-renamed, new_object-oid}
use go_repo_dojo.Heap.Kept.{total}
use go_repo_dojo.Iterator.{
  ObjectIterKind, ObjectIteratorOptions, OidQueueEntry, ObjectIterator, content_refs, refs_by_kind,
  include_refs, include_content_refs, is_wanted, reread, return_object, visit_entry,
}
use go_repo_dojo.Iterator.Included.{
  oid_of, oids, entry_weight, ref_weight, Includes, include_refs-Includes,
}
use mathlib.Core.List.{Memᴰ}
use mathlib.Core.List.Memᴰ

-- `c` is among the references of the object `a`.
abbrev pub Refers : Repo → ObjectIterKind → Hash → Hash → Type 0
Refers repo k a c =
    (o : Object) × (new_object repo a true ≡ ok o) × Memᴰ (some c) (content_refs k o)

-- A route from one of the roots over references, with no excluded name on it.
pub data Route (repo : Repo) (k : ObjectIterKind) (avoid : Names) (roots : List Hash)
    : Hash → Type 0 where
  from : {c : Hash} → Memᴰ c roots → contains avoid (hex c) ≡ false → Route repo k avoid roots c
  along :
      {a c : Hash}
      → Route repo k avoid roots a
      → Refers repo k a c
      → contains avoid (hex c) ≡ false
      → Route repo k avoid roots c

pub Route-free :
    {repo : Repo} {k : ObjectIterKind} {avoid : Names} {roots : List Hash} {c : Hash}
    → Route repo k avoid roots c
    → contains avoid (hex c) ≡ false
Route-free (from m f) = f
Route-free (along r p f) = f

-- Fewer exclusions and roots that were reached before give no new routes.
pub Route-widen :
    {repo : Repo} {k : ObjectIterKind} {avoid avoid' : Names} {roots roots' : List Hash}
    → ((name : Bytes) → contains avoid' name ≡ false → contains avoid name ≡ false)
    → ((c : Hash) → Memᴰ c roots' → contains avoid (hex c) ≡ false → Route repo k avoid roots c)
    → {c : Hash} → Route repo k avoid' roots' c
    → Route repo k avoid roots c
Route-widen free reach (from {c} m f) = reach c m (free (hex c) f)
Route-widen free reach (along {a} {c} r p f) = along (Route-widen free reach r) p (free (hex c) f)

-- The routes of an iterator's state.
abbrev pub Awaits : Repo → ObjectIteratorOptions → ObjectIterator → Hash → Type 0
Awaits repo opts it c = Route repo opts.kind it.excludes (oids it) c

-- The object can be read and is one that the iterator returns.
abbrev pub Wanted : Repo → ObjectIteratorOptions → Hash → Type 0
Wanted repo opts c = (o : Object) × (new_object repo c true ≡ ok o) × (is_wanted opts o ≡ true)

-- Every readable object weighs more than its references together.
abbrev pub Outweighs : Repo → ObjectIterKind → (Bytes → ℕ) → Type 0
Outweighs repo k w =
    (a : Hash) (o : Object)
    → new_object repo a true ≡ ok o
    → total (ref_weight w) (content_refs k o) ≤ w (hex a)

contains-mark :
    (m : Names) (k name : Bytes)
    → contains (map_set k true m) name ≡ false
    → (contains m name ≡ false) × (k ≢ name)
contains-mark m k name h = elim (Bool-cases (bytes_eq k name)) [
  | inl e ↦
      let set : contains (map_set k true m) name ≡ true = contains-map_set m k name ∙ rw e in
      absurd (cc (sym h ∙ set))
  | inr e ↦ (
    rw e at (sym (contains-map_set m k name) ∙ h),
    λ same. cc (sym e ∙ (bytes_eq_iff k name).1 same),
  )
]

pub contains-unmarked :
    (m : Names) (k name : Bytes)
    → contains m name ≡ false
    → k ≢ name
    → contains (map_set k true m) name ≡ false
contains-unmarked m k name h other = elim (Bool-cases (bytes_eq k name)) [
  | inl e ↦ absurd (other ((bytes_eq_iff k name).0 e))
  | inr e ↦ contains-map_set m k name ∙ rw e h
]

content_refs-renamed :
    (k : ObjectIterKind) (b : Hash) (o : Object) → content_refs k (renamed b o) ≡ content_refs k o
unfolding content_refs
content_refs-renamed k b o = go o.kind
  where
    go : (kind : ObjectKind) → refs_by_kind k kind (renamed b o) ≡ refs_by_kind k kind o
    go object_kind_blob = refl
    go object_kind_tree = refl
    go object_kind_commit = refl
    go object_kind_tag = refl

-- A reference by another hash of the same name.
Refers-renamed :
    (repo : Repo) (k : ObjectIterKind) (a b c : Hash)
    → hex a ≡ hex b
    → Refers repo k a c
    → Refers repo k b c
Refers-renamed repo k a b c e (o, read, m) = (
  renamed b o,
  new_object-renamed repo a b true o e read,
  subst (Memᴰ (some c)) (sym (content_refs-renamed k b o)) m,
)

module _ (repo : Repo) (opts : ObjectIteratorOptions) (w : Bytes → ℕ)
    (unbounded : opts.max_depth ≡ 0) (weighs : Outweighs repo opts.kind w) where
  -- A state after a round that returned nothing.
  pub record Passes (it it' : ObjectIterator) : Type 0 where
    pub back : (c : Hash) → Awaits repo opts it' c → Awaits repo opts it c
    pub forth : (c : Hash) → Awaits repo opts it c → Wanted repo opts c → Awaits repo opts it' c
    pub lighter : total (entry_weight w) it'.queue < total (entry_weight w) it.queue

  -- A state after a round that returned an object.
  pub record Yields (x : Object) (it it' : ObjectIterator) : Type 0 where
    pub reached : Awaits repo opts it x.oid
    pub wanted : Wanted repo opts x.oid
    pub back : (c : Hash) → Awaits repo opts it' c → Awaits repo opts it c
    pub fresh : (c : Hash) → Awaits repo opts it' c → hex x.oid ≢ hex c
    pub forth :
        (c : Hash)
        → Awaits repo opts it c
        → Wanted repo opts c
        → (hex c ≡ hex x.oid) ⊎ Awaits repo opts it' c
    pub lighter : total (entry_weight w) it'.queue < total (entry_weight w) it.queue

  module _ (entry : OidQueueEntry) (rest : List OidQueueEntry) (it : ObjectIterator)
      (e : it.queue ≡ entry ∷ rest) where
    abbrev popped : ObjectIterator
    popped = record it { queue = rest }

    in_queue : (c : Hash) → Memᴰ c (oids popped) → Memᴰ c (oids it)
    in_queue c m = subst (λ q. Memᴰ c (map oid_of q)) (sym e) (Memᴰ.tail m)

    queue_cases : (c : Hash) → Memᴰ c (oids it) → (c ≡ entry.oid) ⊎ Memᴰ c (oids popped)
    queue_cases c m = Memᴰ.cases_cons (subst (λ q. Memᴰ c (map oid_of q)) e m)

    -- An entry that is excluded by now is on no route.
    skipped-Passes : contains it.excludes (hex entry.oid) ≡ true → Passes it popped
    skipped-Passes known = record {
      back = λ c r. Route-widen (λ name f. f) (λ d m f. from (in_queue d m) f) r;
      forth = λ c r wanted.
          Route-widen (λ name f. f)
            (λ d m f. elim (queue_cases d m) [
              | inl same ↦
                  absurd (
                    cc (sym known ∙ ap (λ (x : Hash). contains it.excludes (hex x)) (sym same) ∙ f))
              | inr later ↦ from later f
            ])
            r;
      lighter = omega (arith, ap (total (entry_weight w)) e);
    }

    module _ (fresh : contains it.excludes (hex entry.oid) ≡ false) (o : Object)
        (read : new_object repo entry.oid true ≡ ok o) (it' : ObjectIterator)
        (included : Includes w
          (content_refs opts.kind o)
          (record popped { excludes = map_set (hex entry.oid) true it.excludes })
          it') where
      marks : it'.excludes ≡ map_set (hex entry.oid) true it.excludes
      marks = included.same_excludes

      unmarked :
          (name : Bytes)
          → contains it'.excludes name ≡ false
          → (contains it.excludes name ≡ false) × (hex entry.oid ≢ name)
      unmarked name f =
          contains-mark it.excludes (hex entry.oid) name (ap (λ m. contains m name) (sym marks) ∙ f)

      still_free :
          (c : Hash)
          → contains it.excludes (hex c) ≡ false
          → hex entry.oid ≢ hex c
          → contains it'.excludes (hex c) ≡ false
      still_free c f other =
          ap (λ m. contains m (hex c)) marks
          ∙ contains-unmarked it.excludes (hex entry.oid) (hex c) f other

      entry_awaited : Awaits repo opts it entry.oid
      entry_awaited =
          from (subst (λ q. Memᴰ entry.oid (map oid_of q)) (sym e) (Memᴰ.head refl)) fresh

      visited_back : (c : Hash) → Awaits repo opts it' c → Awaits repo opts it c
      visited_back c r =
          Route-widen (λ name f. (unmarked name f).0)
            (λ d m f. elim (included.back d m) [
              | inl before ↦ from (in_queue d before) f
              | inr now ↦ along entry_awaited (o, read, now) f
            ])
            r

      -- A route either ends at the entry, or goes on without it.
      visited_forth :
          {c : Hash} → Awaits repo opts it c → (hex c ≡ hex entry.oid) ⊎ Awaits repo opts it' c
      visited_forth (from {c} m f) = elim (Bool-cases (bytes_eq (hex c) (hex entry.oid))) [
        | inl same ↦ inl ((bytes_eq_iff (hex c) (hex entry.oid)).0 same)
        | inr other ↦ elim (queue_cases c m) [
          | inl now ↦ inl (ap hex now)
          | inr later ↦ inr (
              from (included.old c later) (
                still_free c f
                  (λ s. cc (sym other ∙ (bytes_eq_iff (hex c) (hex entry.oid)).1 (sym s)))))
        ]
      ]
      visited_forth (along {a} {c} r p f) = elim (Bool-cases (bytes_eq (hex c) (hex entry.oid))) [
        | inl same ↦ inl ((bytes_eq_iff (hex c) (hex entry.oid)).0 same)
        | inr other ↦
            let free =
              still_free c f
                (λ s. cc (sym other ∙ (bytes_eq_iff (hex c) (hex entry.oid)).1 (sym s))) in
            elim (visited_forth r) [
              | inr later ↦ inr (along later p free)
              | inl here ↦
                  let (o', read', m) = Refers-renamed repo opts.kind a entry.oid c here p in
                  let same : o' ≡ o = cc (sym read' ∙ read) in
                  let m' =
                    subst (λ (x : Object). Memᴰ (some c) (content_refs opts.kind x)) same m in
                  inr (
                    from (included.new c m' (ap (λ x. contains x (hex c)) (sym marks) ∙ free)) free)
            ]
      ]

      visited_lighter : total (entry_weight w) it'.queue < total (entry_weight w) it.queue
      visited_lighter =
          let bound = included.bounded in
          let light = weighs entry.oid o read in omega (arith, ap (total (entry_weight w)) e)

  -- What a round leaves behind.
  abbrev pub Round : ObjectIterator → Option Object × ObjectIterator → Type 0
  Round it (none, it') = Passes it it'
  Round it (some x, it') = Yields x it it'

  reread-oid :
      (oid : Hash) (o x : Object)
      → new_object repo oid true ≡ ok o
      → reread opts repo oid o ≡ ok x
      → x.oid ≡ oid
  unfolding reread
  reread-oid oid o x read h = elim (Bool-cases opts.full) [
    | inl full ↦
        let same : o ≡ x = cc (rw full at h) in
        ap (λ (y : Object). y.oid) (sym same) ∙ new_object-oid repo oid true o read
    | inr raw ↦ new_object-oid repo oid false x (rw raw at h)
  ]

  -- An object of another hash with the same name is wanted too.
  Wanted-renamed :
      (a b : Hash) (o : Object)
      → hex a ≡ hex b
      → new_object repo b true ≡ ok o
      → Wanted repo opts a
      → is_wanted opts o ≡ true
  unfolding is_wanted
  Wanted-renamed a b o e read (o', read', wanted) =
      let same : renamed b o' ≡ o = cc (sym (new_object-renamed repo a b true o' e read') ∙ read) in
      subst (λ (x : Object). is_wanted opts x ≡ true) same wanted

  module _ (entry : OidQueueEntry) (rest : List OidQueueEntry) (it : ObjectIterator)
      (e : it.queue ≡ entry ∷ rest) where
    returned-Round :
        (o : Object) (it' : ObjectIterator) (out : Option Object × ObjectIterator)
        → contains it.excludes (hex entry.oid) ≡ false
        → new_object repo entry.oid true ≡ ok o
        → Includes w
            (content_refs opts.kind o)
            (record it { queue = rest; excludes = map_set (hex entry.oid) true it.excludes })
            it'
        → return_object opts repo entry o it' ≡ ok out
        → Round it out
    unfolding return_object
    returned-Round o it' out fresh read included h = elim (Bool-cases (is_wanted opts o)) [
      | inr plain ↦
          let same : (none, it') ≡ out = cc (rw (plain, return_object) at h) in
          subst (Round it) same (record {
            back = visited_back entry rest it e fresh o read it' included;
            forth = λ c r wanted. elim (visited_forth entry rest it e fresh o read it' included r) [
              | inr later ↦ later
              | inl here ↦ absurd (cc (sym plain ∙ Wanted-renamed c entry.oid o here read wanted))
            ];
            lighter = visited_lighter entry rest it e fresh o read it' included;
          })
      | inl good ↦
          let (x, again, final) =
            >>=-eq-ok (reread opts repo entry.oid o) _ (rw (good, return_object) at h) in
          let same : (some x, it') ≡ out = cc final in
          let oid = reread-oid entry.oid o x read again in
          subst (Round it) same (record {
            reached =
                subst (Awaits repo opts it) (sym oid)
                  (entry_awaited entry rest it e fresh o read it' included);
            wanted = subst (Wanted repo opts) (sym oid) (o, read, good);
            back = visited_back entry rest it e fresh o read it' included;
            fresh = λ c r s.
                let (free, other) =
                  unmarked entry rest it e fresh o read it' included (hex c) (Route-free r) in
                other (ap hex (sym oid) ∙ s);
            forth = λ c r wanted. elim (visited_forth entry rest it e fresh o read it' included r) [
              | inr later ↦ inr later
              | inl here ↦ inl (here ∙ ap hex (sym oid))
            ];
            lighter = visited_lighter entry rest it e fresh o read it' included;
          })
    ]

    pub visit_entry-Round :
        (out : Option Object × ObjectIterator)
        → visit_entry opts repo entry (record it { queue = rest }) ≡ ok out
        → Round it out
    unfolding visit_entry include_content_refs
    visit_entry-Round out h = elim (Bool-cases (contains it.excludes (hex entry.oid))) [
      | inl known ↦
          let same : (none, record it { queue = rest }) ≡ out = cc (rw (known, visit_entry) at h) in
          subst (Round it) same (skipped-Passes entry rest it e known)
      | inr fresh ↦
          let (o, read, more) =
            >>=-eq-ok (new_object repo entry.oid true) _ (rw (fresh, visit_entry) at h) in
          let (it', within, final) =
            >>=-eq-ok
              (include_refs opts (content_refs opts.kind o) (entry.depth + 1)
                (record it { queue = rest; excludes = map_set (hex entry.oid) true it.excludes }))
              _ more in
          returned-Round o (record it' { depth = entry.depth }) out fresh read
            (moved (
              include_refs-Includes opts unbounded w (content_refs opts.kind o) (entry.depth + 1)
                (record it { queue = rest; excludes = map_set (hex entry.oid) true it.excludes })
                it' within))
            final
    ]
      where
        moved :
            {refs : List (Option Hash)} {a b : ObjectIterator}
            → Includes w refs a b
            → Includes w refs a (record b { depth = entry.depth })
        moved i = record {
          same_excludes = i.same_excludes;
          old = i.old;
          new = i.new;
          back = i.back;
          bounded = i.bounded;
        }
