-- ===== src/Errors.antt =====
-- core/include/core/task_error.h and core/include/core/result.h: error categories, the structured
-- error with its two constructors, and `Result`.
pub mod Lookup
use stv_renew.Prelude.{
  ℕ, Bool, true, false, String, List, [], ◌∷◌, Option, none, some, str_eq, if◌then◌else◌,
}
use stv_renew.Prelude.Int.{ℤ, pos}

pub data ErrorCategory : Type 0 where
  network timeout resource pipeline canceled internal unknown : ErrorCategory

unfoldable pub category_to_string : ErrorCategory → String
category_to_string network = "Network"
category_to_string timeout = "Timeout"
category_to_string resource = "Resource"
category_to_string pipeline = "Pipeline"
category_to_string canceled = "Canceled"
category_to_string internal = "Internal"
category_to_string unknown = "Unknown"

abbrev pub is_canceled_category : ErrorCategory → Bool
is_canceled_category canceled = true
is_canceled_category _ = false

-- `std::map<std::string, std::string>`: one pair for each key. `put` is `m[k] = v`.
abbrev pub Details : Type 0
Details = List (String × String)

module _ {ℓ} {V : Type ℓ} where
  unfoldable pub put : String → V → List (String × V) → List (String × V)
  put k v [] = (k, v) ∷ []
  put k v ((j, w) ∷ m) = if str_eq j k then (k, v) ∷ m else (j, w) ∷ put k v m

  unfoldable pub look_up : String → List (String × V) → Option V
  look_up k [] = none
  look_up k ((j, w) ∷ m) = if str_eq j k then some w else look_up k m

pub record TaskError : Type 0 where
  pub category : ErrorCategory
  pub code : ℤ
  pub message : String
  pub retryable : Bool
  pub user_message : String
  pub internal_message : String
  pub details : Details

-- The legacy constructor `TaskError(cat, c, msg)`: one text for all three messages.
abbrev pub simple_error : ErrorCategory → ℕ → String → TaskError
simple_error cat c msg = record {
  category = cat;
  code = pos c;
  message = msg;
  retryable = false;
  user_message = msg;
  internal_message = msg;
  details = [];
}

-- The full constructor: `message` is the user's text.
abbrev pub full_error : ErrorCategory → ℤ → Bool → String → String → Details → TaskError
full_error cat c retry user_msg internal_msg dets = record {
  category = cat;
  code = c;
  message = user_msg;
  retryable = retry;
  user_message = user_msg;
  internal_message = internal_msg;
  details = dets;
}

abbrev pub canceled_error : String → TaskError
canceled_error msg = simple_error canceled 1 msg

abbrev pub timeout_error : String → TaskError
timeout_error msg = simple_error timeout 2 msg

abbrev pub pipeline_error : String → TaskError
pipeline_error msg = simple_error pipeline 3 msg

abbrev pub internal_error : String → TaskError
internal_error msg = simple_error internal 4 msg

-- `Result<T, E>`; the specialisation for `void` is `Result (Unit {0}) E`.
pub data Result {ℓ} (T : Type ℓ) (E : Type 0) : Type ℓ where
  ok : T → Result T E
  err : E → Result T E

module _ {ℓ} {T : Type ℓ} {E : Type 0} where
  abbrev pub is_ok : Result T E → Bool
  is_ok (ok _) = true
  is_ok (err _) = false

-- What the operations without a value return.
abbrev pub Status : Type 0
Status = Result (Unit {0}) TaskError

-- Checks that return early with an error.
infixl 5 ◌>>◌
abbrev pub ◌>>◌ {ℓ} : {A : Type ℓ} → Status → Result A TaskError → Result A TaskError
ok _ >> k = k
err e >> k = err e

abbrev pub guard : Bool → TaskError → Status
guard true e = ok tt
guard false e = err e
