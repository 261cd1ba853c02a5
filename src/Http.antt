-- ===== src/Http.antt =====
-- The parts of net/http that the handlers read and write: a request as the router hands it over,
-- and the response that a handler leaves.
pub mod Writer
use feature_voting_system.Prelude.{
  ◌++◌, ℕ, Bool, false, not, List, [], ◌∷◌, Option, none, some, Bytes, codes, bytes_eq,
}

-- `path_id` is `chi.URLParam(r, "id")`; `query` and `header` give "" for what is missing, as `Get`
-- does; `context_user` is the value that the context holds under `UserIDKey`; `form` is what
-- `json.NewDecoder(r.Body).Decode` makes of the body: its text fields, "" where one is missing,
-- or nothing where it returns an error.
pub record Request : Type 0 where
  pub method : Bytes
  pub path : Bytes
  pub path_id : Bytes
  pub query : Bytes → Bytes
  pub header : Bytes → Bytes
  pub remote_addr : Bytes
  pub context_user : Option Bytes
  pub form : Option (Bytes → Bytes)

-- The header lines that were set, and the value that was given to the JSON encoder.
pub record Response (B : Type 0) : Type 0 where
  pub status : ℕ
  pub headers : List (Bytes × Bytes)
  pub body : B

-- An error body holds its code and its message; `plain` is a text that `http.Error` wrote.
pub data Body (B : Type 0) : Type 0 where
  value : B → Body B
  error : Bytes → Bytes → Body B
  plain : Bytes → Body B
  empty : Body B

abbrev pub json_header : Bytes × Bytes
json_header = (codes "Content-Type", codes "application/json")

-- `writeJSON` of internal/handler/auth.go
abbrev pub write_json : {B : Type 0} → ℕ → Body B → Response (Body B)
write_json status body = record { status = status; headers = json_header ∷ []; body = body }

-- `writeError` of the same file
abbrev pub write_error : {B : Type 0} → ℕ → Bytes → Bytes → Response (Body B)
write_error status code message = write_json status (error code message)

-- `middleware.GetUserID`
abbrev pub get_user_id : Option Bytes → Bytes × Bool
get_user_id none = (codes "", false)
get_user_id (some id) = (id, not (bytes_eq id (codes "")))

-- `http.Error`: a text, whatever the text looks like.
abbrev pub http_error : {B : Type 0} → Bytes → ℕ → Response (Body B)
http_error message status = record {
  status = status;
  headers =
      (codes "Content-Type", codes "text/plain; charset=utf-8")
      ∷ (codes "X-Content-Type-Options", codes "nosniff")
      ∷ [];
  body = plain (message ++ codes "\n");
}

-- `http.Handler` over a state; `B` is what it gives to the JSON encoder.
abbrev pub HttpHandler : Type 0 → Type 0 → Type 0
HttpHandler S B = Request → S → Response (Body B) × S
