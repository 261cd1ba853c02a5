-- ===== src/Middleware/RateLimit/Window.antt =====
-- How many requests pass in one window.
use feature_voting_system.Prelude.{
  ℕ, suc, ◌+◌, ◌-◌, ◌≡◌, List, [], ◌∷◌, Bytes, arith, Bool-cases, inl, inr, ◌==◌, sym, false,
  bytes_eq, bytes_eq_iff, if◌then◌else◌,
}
use Prim.Native.Nat.{min}
use mathlib.Core.Path.{subst}
use feature_voting_system.Errors.{ok}
use feature_voting_system.Http.{Request, Response, Body, HttpHandler}
use feature_voting_system.Middleware.RateLimit.{RateStore, subject, rate_key, rate_limit}

-- While no key expires, INCR counts each key on its own, and EXPIRE counts nothing.
pub record RateLaws {R : Type 0} (store : RateStore R) (count : R → Bytes → ℕ) : Type 0 where
  pub incr_ok : (key : Bytes) (w : R) → (store.incr key w).0 ≡ ok (suc (count w key))
  pub incr_counts : (key : Bytes) (w : R) → count (store.incr key w).1 key ≡ suc (count w key)
  pub incr_keeps :
      (key other : Bytes) (w : R)
      → bytes_eq other key ≡ false
      → count (store.incr key w).1 other ≡ count w other
  pub expire_keeps :
      (key other : Bytes) (seconds : ℕ) (w : R)
      → count (store.expire key seconds w) other ≡ count w other

-- A handler that counts its calls.
abbrev pub tally : {B : Type 0} → Response (Body B) → HttpHandler ℕ B
tally out r calls = (out, suc calls)

-- The key of a request at its time, in seconds.
abbrev key_of : ℕ → ℕ × Request → Bytes
key_of window (now, r) = rate_key (subject r) window now

-- How many of the requests have this key.
abbrev pub with_key : ℕ → Bytes → List (ℕ × Request) → ℕ
with_key window key [] = 0
with_key window key (q ∷ qs) =
    if bytes_eq key (key_of window q) then suc (with_key window key qs) else with_key window key qs

module _ {R B : Type 0} (store : RateStore R) (count : R → Bytes → ℕ) (laws : RateLaws store count)
    (limit window : ℕ) (out : Response (Body B)) (key : Bytes) where
  -- Requests at their times, one after the other: how often the handler is called for this key.
  pub serve_all : List (ℕ × Request) → ℕ → R → ℕ × R
  serve_all [] calls w = (calls, w)
  serve_all ((now, r) ∷ rs) calls w =
      let (_, (calls', w')) = rate_limit store limit window now (tally out) r (calls, w) in
      serve_all rs (if bytes_eq key (rate_key (subject r) window now) then calls' else calls) w'

  serve_own :
      (now : ℕ) (r : Request) (calls : ℕ) (w : R)
      → let own = rate_key (subject r) window now in
        let (_, (calls', w')) = rate_limit store limit window now (tally out) r (calls, w) in
        (calls' ≡ calls + (min limit (suc (count w own)) - min limit (count w own)))
        × (count w' own ≡ suc (count w own))
  unfolding rate_limit
  serve_own now r calls w =
      let own = rate_key (subject r) window now in
      let w' = (store.incr own w).1 in
      elim (Bool-cases (0 == count w own)) [
        | inl first ↦
            ground (
              arith,
              laws.incr_ok own w,
              laws.incr_counts own w,
              laws.expire_keeps own own window w',
            )
        | inr later ↦ ground (arith, laws.incr_ok own w, laws.incr_counts own w)
      ]

  serve_other :
      (now : ℕ) (r : Request) (calls : ℕ) (w : R)
      → bytes_eq key (rate_key (subject r) window now) ≡ false
      → count (rate_limit store limit window now (tally out) r (calls, w)).1.1 key ≡ count w key
  unfolding rate_limit
  serve_other now r calls w other =
      let own = rate_key (subject r) window now in
      let w' = (store.incr own w).1 in
      elim (Bool-cases (0 == count w own)) [
        | inl first ↦ ground (
          arith,
          laws.incr_ok own w,
          laws.incr_keeps own key w other,
          laws.expire_keeps own key window w',
        )
        | inr later ↦ ground (arith, laws.incr_ok own w, laws.incr_keeps own key w other)
      ]

  -- However many requests have one key, of a user and a window, whatever was counted before, and
  -- whatever requests with other keys come in between, the handler is called for as many of them
  -- as the limit leaves: all, or those up to the limit. No command of Redis fails, and no key
  -- expires within the window.
  pub serve_all-limit :
      (rs : List (ℕ × Request)) (calls : ℕ) (w : R)
      → (serve_all rs calls w).0
        ≡ calls + (min limit (count w key + with_key window key rs) - min limit (count w key))
  unfolding serve_all
  serve_all-limit [] calls w = omega arith
  serve_all-limit ((now, r) ∷ rs) calls w =
      let own = rate_key (subject r) window now in
      let (_, (calls', w')) = rate_limit store limit window now (tally out) r (calls, w) in
      elim (Bool-cases (bytes_eq key own)) [
        | inl mine ↦
            let (called, counted) =
              subst
                (λ k.
                  (calls' ≡ calls + (min limit (suc (count w k)) - min limit (count w k)))
                  × (count w' k ≡ suc (count w k)))
                (sym ((bytes_eq_iff key own).0 mine)) (serve_own now r calls w) in
            ground (arith, mine, called, counted, serve_all-limit rs calls' w')
        | inr other ↦
            ground (arith, other, serve_other now r calls w other, serve_all-limit rs calls w')
      ]
