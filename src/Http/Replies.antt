-- ===== src/Http/Replies.antt =====
-- internal/adapters/api/http/utils.go: requests with a JSON body, and the replies that handlers write.
use pub_sub_go.Base.{ℕ, String, [], ◌∷◌, if◌then◌else◌, ◌==◌}
use pub_sub_go.Result.{Result, Error, plain, err, annotate}

-- `body` is what the decoder of Go's library makes of the body.
pub record Request (B : Type 0) : Type 0 where
  pub verb : String
  pub content_type : String
  pub body : Result B

-- The field `Message` is a text made of the error.
pub record ErrorResponse : Type 0 where
  pub error : Error
  pub code : String

pub record SuccessResponse (A : Type 0) : Type 0 where
  pub payload : A
  pub message : String

-- What is written: a status with data, a success with 200, or an error with its status.
pub data Reply (A : Type 0) : Type 0 where
  written : ℕ → A → Reply A
  successful : SuccessResponse A → Reply A
  refused : ℕ → ErrorResponse → Reply A

unfoldable pub parse_json_request : {B : Type 0} → Request B → Result B
parse_json_request r =
    if r.content_type == "application/json"
    then annotate "invalid JSON" r.body
    else err (plain ("content-type must be application/json" ∷ []))

unfoldable pub write_error_response : {A : Type 0} → ℕ → Error → String → Reply A
write_error_response status e code = refused status (record { error = e; code = code })

unfoldable pub write_success_response : {A : Type 0} → A → String → Reply A
write_success_response payload message =
    successful (record { payload = payload; message = message })

abbrev pub status_of : {A : Type 0} → Reply A → ℕ
status_of (written status a) = status
status_of (successful r) = 200
status_of (refused status e) = status

abbrev pub method_not_allowed : {A : Type 0} → Reply A
method_not_allowed =
    refused 405 (record { error = plain ("method not allowed" ∷ []); code = "METHOD_NOT_ALLOWED" })
