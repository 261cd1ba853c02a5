-- ===== src/Middleware/Observability/Recorded.antt =====
-- The status that is logged and counted is the one that the client gets.
use feature_voting_system.Prelude.{
  ℕ, ◌≡◌, refl, ◌∙◌, false, List, [], ◌∷◌, ◌++◌, none, some, map, Bytes, arith, All,
}
use feature_voting_system.Http.{Response, Body, value, error, plain, empty}
use feature_voting_system.Http.Writer.{
  Write, header_set, header_del, write_header, write, Sent, send, send_all, unsent,
  is_informational, body_writes, response_writes,
}
use feature_voting_system.Middleware.Observability.{recorded_from, recorded}

-- No status.
abbrev pub IsHeader : Write → Type 0
IsHeader (header_set h) = Unit
IsHeader (header_del k) = Unit
IsHeader (write_header n) = ⊥
IsHeader (write b) = ⊥

abbrev pub IsLate : ℕ → Write → Type 0
IsLate n (header_set h) = Unit
IsLate n (header_del k) = Unit
IsLate n (write_header m) = m ≡ n
IsLate n (write b) = Unit

-- Headers, then one final status, and then anything but another status: a status that is given
-- again must be the same.
abbrev pub IsOrderly : ℕ → List Write → Type 0
IsOrderly n xs =
    (hs later : List Write) × (xs ≡ hs ++ (write_header n ∷ later))
    × All IsHeader hs
    × All (IsLate n) later
    × (is_informational n ≡ false)

recorded-late : (n : ℕ) (xs : List Write) → All (IsLate n) xs → recorded_from n xs ≡ n
unfolding recorded_from
recorded-late n [] h = refl
recorded-late n (header_set x ∷ xs) h = recorded-late n xs h.1
recorded-late n (header_del k ∷ xs) h = recorded-late n xs h.1
recorded-late n (write_header m ∷ xs) h = rw h.0 (recorded-late n xs h.1)
recorded-late n (write b ∷ xs) h = recorded-late n xs h.1

recorded-header :
    (m : ℕ) (hs xs : List Write) → All IsHeader hs → recorded_from m (hs ++ xs) ≡ recorded_from m xs
unfolding recorded_from
recorded-header m [] xs h = refl
recorded-header m (header_set x ∷ hs) xs h = recorded-header m hs xs h.1
recorded-header m (header_del k ∷ hs) xs h = recorded-header m hs xs h.1
recorded-header m (write_header n ∷ hs) xs h = absurd h.0
recorded-header m (write b ∷ hs) xs h = absurd h.0

sent-closed :
    (n : ℕ) (xs : List Write) (w : Sent) → w.status ≡ some n → (send_all xs w).status ≡ some n
unfolding send_all
sent-closed n [] w h = h
sent-closed n (header_set x ∷ xs) w h = sent-closed n xs (send (header_set x) w) (ground (arith, h))
sent-closed n (header_del k ∷ xs) w h = sent-closed n xs (send (header_del k) w) (ground (arith, h))
sent-closed n (write_header m ∷ xs) w h =
    sent-closed n xs (send (write_header m) w) (ground (arith, h))
sent-closed n (write b ∷ xs) w h = sent-closed n xs (send (write b) w) (ground (arith, h))

sent-header :
    (hs : List Write) (n : ℕ) (later : List Write) (w : Sent)
    → All IsHeader hs
    → is_informational n ≡ false
    → w.status ≡ none
    → (send_all (hs ++ (write_header n ∷ later)) w).status ≡ some n
unfolding send_all
sent-header [] n later w h final early =
    sent-closed n later (send (write_header n) w) (ground (arith, final, early))
sent-header (header_set x ∷ hs) n later w h final early =
    sent-header hs n later (send (header_set x) w) h.1 final (ground (arith, early))
sent-header (header_del k ∷ hs) n later w h final early =
    sent-header hs n later (send (header_del k) w) h.1 final (ground (arith, early))
sent-header (write_header m ∷ hs) n later w h final early = absurd h.0
sent-header (write b ∷ hs) n later w h final early = absurd h.0

-- Of a handler that gives its status before its body, and no other afterwards, the recorder holds
-- the status that the client gets.
pub recorded-sent :
    (n : ℕ) (xs : List Write)
    → IsOrderly n xs
    → (recorded xs ≡ n) × ((send_all xs unsent).status ≡ some n)
unfolding recorded_from
recorded-sent n xs (hs, later, same, headers, late, final) = rw same (
  recorded-header 200 hs (write_header n ∷ later) headers ∙ recorded-late n later late,
  sent-header hs n later unsent headers final refl,
)

module _ {B : Type 0} (encode : Body B → Bytes) where
  headers-IsHeader : (hs : List (Bytes × Bytes)) → All IsHeader (map header_set hs)
  headers-IsHeader [] = tt
  headers-IsHeader (h ∷ hs) = (tt, headers-IsHeader hs)

  body-IsLate : (n : ℕ) (b : Body B) → All (IsLate n) (body_writes encode b)
  body-IsLate n (value v) = (tt, tt)
  body-IsLate n (error c m) = (tt, tt)
  body-IsLate n (plain t) = (tt, tt)
  body-IsLate n empty = tt

  -- So it is of every handler that leaves a response with a final status.
  pub response-IsOrderly :
      (out : Response (Body B))
      → is_informational out.status ≡ false
      → IsOrderly out.status (response_writes encode out)
  response-IsOrderly out final = (
    map header_set out.headers,
    body_writes encode out.body,
    refl,
    headers-IsHeader out.headers,
    body-IsLate out.status out.body,
    final,
  )
