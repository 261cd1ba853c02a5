-- ===== src/Middleware/RateLimit.antt =====
-- `RateLimit` of internal/middleware/ratelimit.go. It counts requests in windows of fixed length.
pub mod Window
use feature_voting_system.Prelude.{
  ℕ, ◌/◌, List, ◌∷◌, ◌++◌, Bytes, codes, pos, ltb, ◌==◌, if◌then◌else◌,
}
use feature_voting_system.Errors.{Result, ok, err}
use feature_voting_system.Text.Decimal.{write_int}
use feature_voting_system.Http.{Request, Response, Body, HttpHandler, http_error, get_user_id}

-- The two commands of a Redis client; `R` is the server with what lies between.
pub record RateStore (R : Type 0) : Type 0 where
  pub incr : Bytes → R → Result ℕ × R
  pub expire : Bytes → ℕ → R → R

-- The user, or the address of a request without one.
abbrev pub subject : Request → Bytes
subject r =
    let (user, present) = get_user_id r.context_user in if present then user else r.remote_addr

-- `fmt.Sprintf("ratelimit:%s:%d", userID, time.Now().Unix()/int64(windowSecs))`
abbrev pub rate_key : Bytes → ℕ → ℕ → Bytes
rate_key who window now = codes "ratelimit:" ++ (who ++ (b':' ∷ write_int (pos (now / window))))

abbrev pub rate_limited : {B : Type 0} → ℕ → Response (Body B)
rate_limited window =
    let out =
      http_error (codes "{\"error\":\"rate_limited\",\"message\":\"too many requests\"}") 429 in
    record out { headers = (codes "Retry-After", write_int (pos window)) ∷ out.headers }

-- `window` is in seconds, and `now` is the time of the request in seconds since 1970.
module _ {R S B : Type 0} (store : RateStore R) (limit window now : ℕ)
    (next : HttpHandler S B) where
  abbrev serve : Request → S → R → Response (Body B) × (S × R)
  serve r s w = let (out, s') = next r s in (out, (s', w))

  abbrev counted : Request → Bytes → S → Result ℕ → R → Response (Body B) × (S × R)
  counted r key s (err e) w = serve r s w
  counted r key s (ok count) w =
      let w' = if count == 1 then store.expire key window w else w in
      if ltb limit count then (rate_limited window, (s, w')) else serve r s w'

  unfoldable pub rate_limit : HttpHandler (S × R) B
  rate_limit r (s, w) =
      let key = rate_key (subject r) window now in
      let (out, w') = store.incr key w in counted r key s out w'
