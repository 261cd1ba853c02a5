-- ===== src/Http/Writer/Answer.antt =====
-- What the client gets of a handler's calls.
use feature_voting_system.Prelude.{
  ◌≡◌, refl, inl, inr, List, [], ◌∷◌, ◌++◌, none, map, Bytes, arith, Option-cases, Bool-cases,
}
use feature_voting_system.Http.Writer.{
  Write, header_set, header_del, write_header, write, Sent, send, send_all, is_informational,
}

pub send_all-append :
    (xs ys : List Write) (w : Sent) → send_all (xs ++ ys) w ≡ send_all ys (send_all xs w)
unfolding send_all
send_all-append [] ys w = refl
send_all-append (x ∷ xs) ys w = send_all-append xs ys (send x w)

-- The same status and the same body.
abbrev pub SameAnswer : Sent → Sent → Type 0
SameAnswer v w = (v.status ≡ w.status) × (v.body ≡ w.body)

send-SameAnswer : (x : Write) (v w : Sent) → SameAnswer v w → SameAnswer (send x v) (send x w)
send-SameAnswer (header_set h) v w (s, b) = elim (Option-cases w.status) [
  | inl early ↦ ground (arith, s, b, early)
  | inr (m, closed) ↦ ground (arith, s, b, closed)
]
send-SameAnswer (header_del k) v w (s, b) = elim (Option-cases w.status) [
  | inl early ↦ ground (arith, s, b, early)
  | inr (m, closed) ↦ ground (arith, s, b, closed)
]
send-SameAnswer (write_header n) v w (s, b) = elim (Option-cases w.status) [
  | inl early ↦ elim (Bool-cases (is_informational n)) [
    | inl announced ↦ ground (arith, s, b, early)
    | inr final ↦ ground (arith, s, b, early)
  ]
  | inr (m, closed) ↦ ground (arith, s, b, closed)
]
send-SameAnswer (write m) v w (s, b) = ground (arith, s, b)

pub send_all-SameAnswer :
    (xs : List Write) (v w : Sent) → SameAnswer v w → SameAnswer (send_all xs v) (send_all xs w)
unfolding send_all
send_all-SameAnswer [] v w h = h
send_all-SameAnswer (x ∷ xs) v w h =
    send_all-SameAnswer xs (send x v) (send x w) (send-SameAnswer x v w h)

set-SameAnswer :
    (x : Bytes × Bytes) (v w : Sent) → SameAnswer v w → SameAnswer (send (header_set x) v) w
set-SameAnswer x v w (s, b) = elim (Option-cases v.status) [
  | inl early ↦ ground (arith, s, b, early)
  | inr (m, closed) ↦ ground (arith, s, b, closed)
]

-- Headers that are set before change neither.
pub send_all-headers :
    (hs : List (Bytes × Bytes)) (xs : List Write) (v w : Sent)
    → SameAnswer v w
    → SameAnswer (send_all (map header_set hs ++ xs) v) (send_all xs w)
unfolding send_all
send_all-headers [] xs v w h = send_all-SameAnswer xs v w h
send_all-headers (x ∷ hs) xs v w h =
    send_all-headers hs xs (send (header_set x) v) w (set-SameAnswer x v w h)

-- Without a status nothing of a body was sent.
abbrev pub IsBlank : Sent → Type 0
IsBlank w = w.status ≡ none → w.body ≡ []

send-IsBlank : (x : Write) (w : Sent) → IsBlank w → IsBlank (send x w)
send-IsBlank (header_set h) w blank = elim (Option-cases w.status) [
  | inl early ↦ ground (arith, early, blank early)
  | inr (m, closed) ↦ ground (arith, closed)
]
send-IsBlank (header_del k) w blank = elim (Option-cases w.status) [
  | inl early ↦ ground (arith, early, blank early)
  | inr (m, closed) ↦ ground (arith, closed)
]
send-IsBlank (write_header n) w blank = elim (Option-cases w.status) [
  | inl early ↦ elim (Bool-cases (is_informational n)) [
    | inl announced ↦ ground (arith, early, blank early)
    | inr final ↦ ground (arith, early)
  ]
  | inr (m, closed) ↦ ground (arith, closed)
]
send-IsBlank (write b) w blank = elim (Option-cases w.status) [
  | inl early ↦ ground (arith, early)
  | inr (m, closed) ↦ ground (arith, closed)
]

pub send_all-IsBlank : (xs : List Write) (w : Sent) → IsBlank w → IsBlank (send_all xs w)
unfolding send_all
send_all-IsBlank [] w blank = blank
send_all-IsBlank (x ∷ xs) w blank = send_all-IsBlank xs (send x w) (send-IsBlank x w blank)
