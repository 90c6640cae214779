-- ===== src/Prelude/Result.antt =====
-- What a Go function that can fail gives back: a value, a non-nil `error`, or no return at all
-- (a panic, or `ZapLogger.Fatal`, which ends the process).
use mathlib.Core.Path.{◌≡◌, refl}
use mathlib.Core.Logic.{◌⊎◌, inl, inr}
use mathlib.Core.Bool.{Bool, true, false}

-- The errors that the program makes, and those of the database and of the file system.
pub data Error : Type 0 where
  cache_full bin_put_error header_closed entry_deleted no_tail blob_not_exist : Error
  range_collision not_ready out_of_range writer_not_ready : Error
  conn_incomplete conn_exhausted meta_nil not_in_cache invalid_state : Error
  db_error json_error io_error : Error

pub data Result {ℓ} (T : Type ℓ) : Type ℓ where
  crash : Result T
  err : Error → Result T
  ok : T → Result T

abbrev pub ◌>>=◌ {ℓ κ} : {T : Type ℓ} {U : Type κ} → Result T → (T → Result U) → Result U
crash >>= next = crash
err e >>= next = err e
ok t >>= next = next t

-- A step whose value is not used.
abbrev pub ◌>>◌ {κ} : {U : Type κ} → Result (Unit {0}) → Result U → Result U
first >> second = first >>= λ done. second

infixl 5 ◌>>=◌ ◌>>◌
-- A slice or an allocation within its bounds, and what must not fail.
abbrev pub require : Bool → Result (Unit {0})
require true = ok tt
require false = crash

abbrev pub check : Bool → Error → Result (Unit {0})
check true e = ok tt
check false e = err e

pub Result-cases {ℓ} :
    {A : Type ℓ} (r : Result A)
    → ((a : A) × (r ≡ ok a)) ⊎ (((e : Error) × (r ≡ err e)) ⊎ (r ≡ crash))
Result-cases (ok a) = inl (a, refl)
Result-cases (err e) = inr (inl (e, refl))
Result-cases crash = inr (inr refl)

pub ok_injective {ℓ} : {A : Type ℓ} {a b : A} → ok a ≡ ok b → a ≡ b
ok_injective h = cc

-- What an `ok` of a chain says of its first step.
pub >>=-eq-ok {ℓ κ} :
    {T : Type ℓ} {U : Type κ} (first : Result T) (next : T → Result U) {u : U}
    → (first >>= next) ≡ ok u
    → (t : T) × (first ≡ ok t) × (next t ≡ ok u)
>>=-eq-ok crash next e = cc
>>=-eq-ok (err x) next e = cc
>>=-eq-ok (ok t) next e = (t, refl, e)
