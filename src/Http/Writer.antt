-- ===== src/Http/Writer.antt =====
-- `http.ResponseWriter` of net/http: what a handler asks of it, one call after the other, and what
-- the client gets.
pub mod Answer
use feature_voting_system.Prelude.{
  ℕ, ◌≡◌, refl, ◌⊎◌, inl, inr, Bool, ◌&&◌, not, List, [], ◌∷◌, ◌++◌, Option, none, some, map, Bytes,
  codes, bytes_eq, leb, ◌==◌, if◌then◌else◌,
}
use feature_voting_system.Http.{Request, Response, Body, HttpHandler, empty, plain}

-- `Header().Set`, `Header().Del`, `WriteHeader` and `Write`
pub data Write : Type 0 where
  header_set : Bytes × Bytes → Write
  header_del : Bytes → Write
  write_header : ℕ → Write
  write : Bytes → Write

-- How a handler ends.
pub data Ending : Type 0 where
  returned : Ending
  panicked : Bytes → Ending

pub record Trace : Type 0 where
  pub writes : List Write
  pub ending : Ending

-- `http.Handler` over a state.
abbrev pub Handler : Type 0 → Type 0
Handler S = Request → S → Trace × S

-- What was sent: nothing before the status.
pub record Sent : Type 0 where
  pub headers : List (Bytes × Bytes)
  pub status : Option ℕ
  pub body : Bytes

abbrev without : Bytes → List (Bytes × Bytes) → List (Bytes × Bytes)
without key [] = []
without key (h ∷ hs) = if bytes_eq h.0 key then without key hs else h ∷ without key hs

-- 101 ends the exchange; the other codes below 200 announce a response that is still to come.
abbrev pub is_informational : ℕ → Bool
is_informational n = leb 100 n && leb n 199 && not (n == 101)

-- The first status counts, and a body that is written before has the status 200; later headers are
-- not sent.
abbrev pub send : Write → Sent → Sent
send (header_set h) w = elim w.status [
  | none ↦ record w { headers = h ∷ without h.0 w.headers }
  | some n ↦ w
]
send (header_del key) w = elim w.status [
  | none ↦ record w { headers = without key w.headers }
  | some n ↦ w
]
send (write_header n) w = elim w.status [
  | none ↦ if is_informational n then w else record w { status = some n }
  | some m ↦ w
]
send (write bytes) w = elim w.status [
  | none ↦ record w { status = some 200; body = w.body ++ bytes }
  | some n ↦ record w { body = w.body ++ bytes }
]

unfoldable pub send_all : List Write → Sent → Sent
send_all [] w = w
send_all (x ∷ xs) w = send_all xs (send x w)

abbrev pub unsent : Sent
unsent = record { headers = []; status = none; body = [] }

-- The status that the client gets when the handler has returned.
abbrev pub final_status : Sent → ℕ
final_status w = elim w.status [ none ↦ 200 | some n ↦ n ]

-- `http.Error`
abbrev pub error_writes : Bytes → ℕ → List Write
error_writes message status =
    header_del (codes "Content-Length")
    ∷ header_set (codes "Content-Type", codes "text/plain; charset=utf-8")
    ∷ header_set (codes "X-Content-Type-Options", codes "nosniff")
    ∷ write_header status
    ∷ write (message ++ codes "\n")
    ∷ []

-- The calls of a handler that leaves a response: the headers, the status, and the body as `encode`
-- writes it, if there is one.
abbrev pub body_writes : {B : Type 0} → (Body B → Bytes) → Body B → List Write
body_writes encode empty = []
body_writes encode body = write (encode body) ∷ []

abbrev pub response_writes : {B : Type 0} → (Body B → Bytes) → Response (Body B) → List Write
response_writes encode out =
    map header_set out.headers ++ (write_header out.status ∷ body_writes encode out.body)

abbrev pub respond : {S B : Type 0} → (Body B → Bytes) → HttpHandler S B → Handler S
respond encode next r s =
    let (out, s') = next r s in
    (record { writes = response_writes encode out; ending = returned }, s')

pub Ending-cases : (e : Ending) → (e ≡ returned) ⊎ ((p : Bytes) × (e ≡ panicked p))
Ending-cases returned = inl refl
Ending-cases (panicked p) = inr (p, refl)
