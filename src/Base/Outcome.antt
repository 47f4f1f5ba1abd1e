-- ===== src/Base/Outcome.antt =====
-- Go's `(value, error)` pairs as a sum. Each message of `errors.New` or `fmt.Errorf` that the
-- modelled code returns is a constructor; the values that a format puts in are left out.
use mathlib.Core.Path.{◌≡◌, refl}
use mathlib.Core.Option.{Option, none, some}
use mathlib.Core.Logic.{◌⊎◌, inl, inr}

pub data Error : Type 0 where
  eof unexpected_eof invalid_hex odd_hex_length : Error
  invalid_pkt_header invalid_pkt_length : Error
  invalid_object_kind no_space no_null invalid_size truncated_oid invalid_mode : Error
  object_not_found : Error
  invalid_pack_sig invalid_pack_version unknown_pack_kind invalid_delta_cache : Error
  no_section invalid_config_name section_missing variable_missing : Error
  missing_tree tree_too_short : Error
  ref_not_found head_has_no_valid_hash : Error
  index_too_short invalid_index_signature unsupported_index_version : Error
  truncated_index_entry unterminated_index_path : Error
  unsupported_pack_index : Error
  descendent_not_found no_common_ancestor nil_pointer : Error
  unsupported_object_format invalid_ref_update_line invalid_old_oid invalid_new_oid : Error
  no_sideband : Error
  stuck : Error

pub data Result {ℓ} (Value : Type ℓ) : Type ℓ where
  err : Error → Result Value
  ok : Value → Result Value

infixl 5 ◌>>=◌
-- `if err != nil { return err }`, then the rest.
abbrev pub ◌>>=◌ {κ μ} : {V : Type κ} {W : Type μ} → Result V → (V → Result W) → Result W
err failure >>= rest = err failure
ok value >>= rest = rest value

pub >>=-eq-ok {κ μ} :
    {V : Type κ} {W : Type μ} (r : Result V) (rest : V → Result W) {w : W}
    → (r >>= rest) ≡ ok w
    → (v : V) × (r ≡ ok v) × (rest v ≡ ok w)
>>=-eq-ok (err failure) rest h = cc
>>=-eq-ok (ok v) rest h = (v, refl, h)

-- A missing value as an error.
abbrev pub or_err {ℓ} : {A : Type ℓ} → Option A → Error → Result A
or_err none e = err e
or_err (some a) e = ok a

pub or_err-eq-ok {ℓ} :
    {A : Type ℓ} (o : Option A) (e : Error) {a : A} → or_err o e ≡ ok a → o ≡ some a
or_err-eq-ok none e h = cc
or_err-eq-ok (some a) e h = cc

pub Result-cases {ℓ} :
    {A : Type ℓ} (r : Result A) → ((a : A) × (r ≡ ok a)) ⊎ ((e : Error) × (r ≡ err e))
Result-cases (ok a) = inl (a, refl)
Result-cases (err e) = inr (e, refl)

-- `if err != nil { return nil, err }` in front of what a loop may not come back from.
abbrev pub after {ℓ κ} :
    {A : Type ℓ} {B : Type κ} → Result A → (A → Option (Result B)) → Option (Result B)
after (ok a) next = next a
after (err e) next = some (err e)

-- The same behind a loop.
abbrev pub after_loop {ℓ κ} :
    {A : Type ℓ} {B : Type κ} → Option (Result A) → (A → Option (Result B)) → Option (Result B)
after_loop none next = none
after_loop (some r) next = after r next

-- What holds of the result of a loop that ends: `P` of a value, `Q` of an error.
abbrev pub Ends {ℓ} : {A : Type ℓ} → (A → Type 0) → (Error → Type 0) → Option (Result A) → Type 0
Ends P Q none = ⊥
Ends P Q (some (ok a)) = P a
Ends P Q (some (err e)) = Q e

pub after-bind {ℓ} :
    {A B C : Type ℓ} (P : C → Type 0) (Q : Error → Type 0) (r : Result A) (f : A → Result B)
    (next : B → Option (Result C))
    → Ends P Q (after r (λ x. after (f x) next))
    → Ends P Q (after (r >>= f) next)
after-bind P Q (ok a) f next h = h
after-bind P Q (err e) f next h = h
