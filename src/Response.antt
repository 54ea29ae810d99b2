-- ===== src/Response.antt =====
-- pkg/response/errors.go: the application errors that services return, with their HTTP status and
-- machine code. The wrapped cause never reaches a client and is left out.
use smart_assistant_api.Common.{ℕ, String, List, ◌∷◌, []}

-- One constructor for each of the `New…` functions.
pub data AppError : Type 0 where
  bad_request unauthorized forbidden not_found conflict internal : String → AppError
  validation : List (String × String) → AppError

abbrev pub status : AppError → ℕ
status (bad_request _) = 400
status (validation _) = 422
status (unauthorized _) = 401
status (forbidden _) = 403
status (not_found _) = 404
status (conflict _) = 409
status (internal _) = 500

abbrev pub message : AppError → String
message (bad_request m) = m
message (validation _) = "validation failed"
message (unauthorized m) = m
message (forbidden m) = m
message (not_found m) = m
message (conflict m) = m
message (internal m) = m

-- NewValidation(map[string]string{field: text})
abbrev pub invalid : String → String → AppError
invalid field text = validation ((field, text) ∷ [])
