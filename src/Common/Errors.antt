-- ===== src/Common/Errors.antt =====
-- Exceptions as values: one constructor for each exception class, with its message.
use Prim.Native.String.{String}
use mathlib.Core.Path.{◌≡◌, refl}
use mathlib.Core.Logic.{◌⊎◌, inl, inr}
use mathlib.Core.Bool.{Bool, true, false}

pub data Error : Type 0 where
  -- `ValueError`, and pydantic's `ValidationError`, which is a subclass of it
  value_error : String → Error
  state_conflict : String → Error
  unsupported_state_event : String → Error
  search_disclosure : String → Error
  rule_contract : String → Error
  verification_rejected : String → Error
  -- `KeyError`, `IndexError` and `StopIteration`: a missing key or index, an exhausted generator
  key_error : Error
  index_error : Error
  stop_iteration : Error

-- What a call that may raise comes back with.
pub data Result {κ} (Value : Type κ) : Type κ where
  err : Error → Result Value
  ok : Value → Result Value

-- `if bad: raise e`
abbrev pub raise_if : Bool → Error → Result (Unit {0})
raise_if bad e = elim bad [ true ↦ err e | false ↦ ok tt ]

-- The statements after a call run only if it did not raise.
infixl 5 ◌>>=◌
abbrev pub ◌>>=◌ {κ ν} : {X : Type κ} {Y : Type ν} → Result X → (X → Result Y) → Result Y
err raised >>= next = err raised
ok value >>= next = next value

infixl 5 ◌>>◌
abbrev pub ◌>>◌ {κ} : {Y : Type κ} → Result (Unit {0}) → Result Y → Result Y
call >> next = call >>= λ done. next

pub raise_if-eq-ok {κ} :
    {X : Type κ} (bad : Bool) (e : Error) (next : Result X) {value : X}
    → (raise_if bad e >> next) ≡ ok value
    → (bad ≡ false) × (next ≡ ok value)
raise_if-eq-ok false e next h = (refl, h)
raise_if-eq-ok true e next h = cc

pub >>=-eq-ok {κ ν} :
    {X : Type κ} {Y : Type ν} (call : Result X) (next : X → Result Y) {value : Y}
    → (call >>= next) ≡ ok value
    → (x : X) × (call ≡ ok x) × (next x ≡ ok value)
>>=-eq-ok (err raised) next h = cc
>>=-eq-ok (ok x) next h = (x, refl, h)

pub >>-eq-ok {κ} :
    {Y : Type κ} (call : Result (Unit {0})) (next : Result Y) {value : Y}
    → (call >> next) ≡ ok value
    → (call ≡ ok tt) × (next ≡ ok value)
>>-eq-ok (err raised) next h = cc
>>-eq-ok (ok done) next h = (refl, h)

pub ok-injective {κ} : {X : Type κ} {x y : X} → ok x ≡ ok y → x ≡ y
ok-injective h = cc

pub Result-cases {κ} :
    {X : Type κ} (r : Result X) → ((x : X) × (r ≡ ok x)) ⊎ ((e : Error) × (r ≡ err e))
Result-cases (err raised) = inr (raised, refl)
Result-cases (ok x) = inl (x, refl)
