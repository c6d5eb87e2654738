-- ===== src/Python/Result.antt =====
-- Exceptions as values.
use tributo_knova.Prelude.{String, ◌≡◌, refl, List, [], ◌∷◌}

pub data Exception : Type 0 where
  -- ProtocolValidationError with its message
  protocol_validation : String → Exception
  -- OverflowError: int too large to convert to float
  overflow_error : Exception
  -- TypeError: unhashable type
  type_error : Exception
  -- ValueError with its message
  value_error : String → Exception
  -- the ValueError or TypeError of int(), float(), list() or json.dumps()
  conversion_error : Exception
  -- ExecutionControlError with its code and phase
  control_error : String → String → Exception
  -- KnovaProtocolFailure with its code and message
  protocol_failure : String → String → Exception
  -- the broker's MappingFailure with its code and message
  mapping_failure : String → String → Exception
  -- _TrainingConfigurationError and _TrainingExecutionError with their message
  training_configuration : String → Exception
  training_execution : String → Exception
  -- _InferenceConfigurationError with its code, phase and message
  inference_configuration : String → String → String → Exception
  -- KeyError
  key_error : Exception
  -- redis.exceptions.ResponseError: the script failed
  response_error : Exception
  -- RecursionError: maximum recursion depth exceeded
  recursion_error : Exception

-- what a call comes to: a value, or an exception that ends the caller unless it is caught
pub data Result {ℓ} (Value : Type ℓ) : Type ℓ where
  ok : Value → Result Value
  err : Exception → Result Value

module _ {ℓ κ} {A : Type ℓ} {B : Type κ} where
  infixl 5 ◌>>=◌ ◌>>◌
  abbrev pub ◌>>=◌ : Result A → (A → Result B) → Result B
  err raised >>= rest = err raised
  ok value >>= rest = rest value

  abbrev pub ◌>>◌ : Result A → Result B → Result B
  first >> rest = first >>= λ _. rest

-- for x in xs: f(x)
unfoldable pub for_each {ℓ κ} :
    {A : Type ℓ} {B : Type κ} → (A → Result B) → List A → Result (Unit {0})
for_each f [] = ok tt
for_each f (x ∷ xs) = f x >> for_each f xs

-- Two steps that return have both returned. A proof goes on with the value of the first.
pub from_ok {ℓ κ μ} :
    {A : Type ℓ} {B : Type κ} {C : Type μ} (first : Result A) (rest : A → Result B) {b : B}
    → (first >>= rest) ≡ ok b
    → ((value : A) → first ≡ ok value → rest value ≡ ok b → C)
    → C
from_ok (err raised) rest h k = cc
from_ok (ok value) rest h k = k value refl h

pub ok-injective {ℓ} : {A : Type ℓ} {a b : A} → ok a ≡ ok b → a ≡ b
ok-injective h = cc
