-- ===== src/Base/Http.antt =====
-- What a service raises: FastAPI's `HTTPException`, with the status code and the detail as data.
use Prim.Native.Nat.{ℕ}
use Prim.Native.String.{String}
use mathlib.Core.Path.{◌≡◌, refl}
use mathlib.Core.Logic.{◌⊎◌, inl, inr}
use mathlib.Core.Bool.{Bool, true, false}
use mathlib.Core.Option.{Option, none, some}

-- The text of a message, by the values that it shows (a deployment's status aside).
pub data Detail : Type 0 where
  asset_on_shipment : ℕ → ℕ → String → Detail
  asset_on_deployment : ℕ → ℕ → String → Detail
  deployment_planning : ℕ → String → Detail
  short_of_stock : ℕ → String → Option String → Option String → ℕ → Detail
  asset_not_found : ℕ → Detail
  shipment_not_found deployment_not_found item_not_found : Detail
  location_not_found : ℕ → Detail
  unknown_status : String → Detail
  no_assets closed_shipment cancelled_shipment : Detail
  closed_deployment not_in_planning empty_deployment shipment_not_linked : Detail
  cannot_start cannot_complete : Detail
  linked_elsewhere : ℕ → ℕ → Detail
  archived already_archived not_assigned nothing_to_assign unique_violated location_in_use : Detail

pub data HttpError : Type 0 where
  bad_request not_found conflict : Detail → HttpError

pub data Result {ℓ} (A : Type ℓ) : Type ℓ where
  ok : A → Result A
  err : HttpError → Result A

-- A check, or a query that may raise.
infixl 5 ◌>>=◌ ◌>>◌
abbrev pub ◌>>=◌ {ℓ κ} : {A : Type ℓ} {B : Type κ} → Result A → (A → Result B) → Result B
ok a >>= f = f a
err e >>= f = err e

abbrev pub ◌>>◌ {ℓ κ} : {A : Type ℓ} {B : Type κ} → Result A → Result B → Result B
m >> k = m >>= λ _. k

abbrev pub raise_if : Bool → HttpError → Result (Unit {0})
raise_if true e = err e
raise_if false e = ok tt

abbrev pub or_raise {ℓ} : {A : Type ℓ} → Option A → HttpError → Result A
or_raise none e = err e
or_raise (some a) e = ok a

pub Result-cases {ℓ} :
    {A : Type ℓ} (r : Result A) → ((a : A) × (r ≡ ok a)) ⊎ ((e : HttpError) × (r ≡ err e))
Result-cases (ok a) = inl (a, refl)
Result-cases (err e) = inr (e, refl)
