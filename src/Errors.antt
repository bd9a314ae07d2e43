-- ===== src/Errors.antt =====
-- Python exceptions as values. An exception is what the program reads of it: its text, and the
-- attributes `retryable` and `status_code` where they hold a bool and an int.
use logs_interceptor_python.Base.{ℕ, String, Bool, true, false, Option, none}

pub record Exception : Type 0 where
  pub message : String
  pub retryable : Option Bool
  pub status_code : Option ℕ

pub data Result {ℓ} (A : Type ℓ) : Type ℓ where
  ok : A → Result A
  raise : Exception → Result A

abbrev pub runtime_error : String → Exception
runtime_error message = record { message = message; retryable = none; status_code = none }

abbrev pub is_ok {ℓ} : {A : Type ℓ} → Result A → Bool
is_ok (ok a) = true
is_ok (raise e) = false
