-- ===== src/Middleware/Auth.antt =====
-- `Auth` of internal/middleware/auth.go.
pub mod Gate
use feature_voting_system.Prelude.{
  ℕ, ◌+◌, Bool, true, false, not, ◌&&◌, List, [], ◌∷◌, some, Bytes, codes, leb, ◌==◌, bytes_eq, map,
  if◌then◌else◌,
}
use feature_voting_system.Errors.{Result, ok, err}
use feature_voting_system.Text.Split.{split_n}
use feature_voting_system.Http.{Request, Response, Body, HttpHandler, http_error}

abbrev pub lower : ℕ → ℕ
lower c = if leb b'A' c && leb c b'Z' then c + 32 else c

-- `strings.EqualFold(s, "bearer")`: no letter outside ASCII folds to one of these.
abbrev pub is_bearer : Bytes → Bool
is_bearer s = bytes_eq (map lower s) (codes "bearer")

abbrev refusal : {B : Type 0} → Bytes → Response (Body B)
refusal message = http_error message 401

abbrev pub missing_header : Bytes
missing_header = codes "{\"error\":\"unauthorized\",\"message\":\"missing authorization header\"}"

abbrev pub invalid_format : Bytes
invalid_format =
    codes "{\"error\":\"unauthorized\",\"message\":\"invalid authorization header format\"}"

abbrev pub invalid_token : Bytes
invalid_token = codes "{\"error\":\"unauthorized\",\"message\":\"invalid or expired token\"}"

-- `verify` is `authSvc.VerifyAccessToken`.
module _ {S B : Type 0} (verify : Bytes → Result Bytes) (next : HttpHandler S B) where
  abbrev with_claims : Request → S → Result Bytes → Response (Body B) × S
  with_claims r s (err e) = (refusal invalid_token, s)
  with_claims r s (ok user) = next (record r { context_user = some user }) s

  abbrev with_parts : Request → S → List Bytes → Response (Body B) × S
  with_parts r s (scheme ∷ token ∷ []) =
      if not (is_bearer scheme) then (refusal invalid_format, s) else with_claims r s (verify token)
  with_parts r s parts = (refusal invalid_format, s)

  unfoldable pub auth : HttpHandler S B
  auth r s =
      let header = r.header (codes "Authorization") in
      if bytes_eq header (codes "")
      then (refusal missing_header, s)
      else with_parts r s (split_n 2 b' ' header)
