-- ===== src/Errors.antt =====
-- Go's error values as far as the program looks into them (internal/service/errors.go, and the
-- `fmt.Errorf`, `errors.Is` and `==` of its callers), and the results of calls that may fail.
use feature_voting_system.Prelude.{
  arith, ℕ, ◌++◌, ◌≡◌, refl, ◌⊎◌, inl, inr, Bool, false, ◌||◌, Bytes, codes, ◌==◌, if◌then◌else◌,
}

-- The error variables that the program compares with: its own, and pgx.ErrNoRows.
pub data Sentinel : Type 0 where
  not_found self_vote already_voted validation unauthorized conflict no_rows : Sentinel

-- A sentinel is one pointer: two are equal when they are the same variable.
abbrev pub sentinel_code : Sentinel → ℕ
sentinel_code Sentinel.not_found = 0
sentinel_code Sentinel.self_vote = 1
sentinel_code Sentinel.already_voted = 2
sentinel_code Sentinel.validation = 3
sentinel_code Sentinel.unauthorized = 4
sentinel_code Sentinel.conflict = 5
sentinel_code Sentinel.no_rows = 6

abbrev pub sentinel_text : Sentinel → Bytes
sentinel_text Sentinel.not_found = codes "not found"
sentinel_text Sentinel.self_vote = codes "cannot vote on your own request"
sentinel_text Sentinel.already_voted = codes "already voted"
sentinel_text Sentinel.validation = codes "validation failed"
sentinel_text Sentinel.unauthorized = codes "unauthorized"
sentinel_text Sentinel.conflict = codes "conflict"
sentinel_text Sentinel.no_rows = codes "no rows in result set"

-- `plain` is an error with nothing below it: one of `fmt.Errorf` without %w, or one that another
-- package made and that is none of the sentinels. `wrap p e s` is `fmt.Errorf("p%ws", e)`, and
-- `join` is `fmt.Errorf("%w: %w", e, f)`.
pub data Error : Type 0 where
  sentinel : Sentinel → Error
  plain : Bytes → Error
  wrap : Bytes → Error → Bytes → Error
  join : Error → Error → Error

-- `err.Error()`
unfoldable pub error_text : Error → Bytes
error_text (sentinel s) = sentinel_text s
error_text (plain m) = m
error_text (wrap p e s) = p ++ (error_text e ++ s)
error_text (join e f) = error_text e ++ (codes ": " ++ error_text f)

-- `err == target`: no chain is followed.
abbrev pub error_eq : Error → Sentinel → Bool
error_eq (sentinel s) t = sentinel_code s == sentinel_code t
error_eq (plain _) t = false
error_eq (wrap _ _ _) t = false
error_eq (join _ _) t = false

-- `errors.Is(err, target)`: the whole chain is searched.
abbrev pub error_is : Error → Sentinel → Bool
error_is (sentinel s) t = sentinel_code s == sentinel_code t
error_is (plain _) t = false
error_is (wrap _ e _) t = error_is e t
error_is (join e f) t = error_is e t || error_is f t

-- `fmt.Errorf("p: %w", err)`
abbrev pub prefixed : Bytes → Error → Error
prefixed p e = wrap p e (codes "")

pub data Result (A : Type 0) : Type 0 where
  ok : A → Result A
  err : Error → Result A

-- A call that may change a state of type `S`, and that may fail; the state comes back either way.
abbrev pub Action : Type 0 → Type 0 → Type 0
Action S A = S → Result A × S

module _ {S A : Type 0} where
  abbrev pub pure : A → Action S A
  pure a s = (ok a, s)

  abbrev pub raise : Error → Action S A
  raise e s = (err e, s)

  -- `if err != nil { return …, f(err) }`
  abbrev pub on_error : (Error → Error) → Action S A → Action S A
  on_error f m s = let (r, s') = m s in elim r [ ok a ↦ (ok a, s') | err e ↦ (err (f e), s') ]

infixl 5 ◌>>=◌ ◌>>◌
abbrev pub ◌>>=◌ : {S A B : Type 0} → Action S A → (A → Action S B) → Action S B
◌>>=◌ m f s = let (r, s') = m s in elim r [ ok a ↦ f a s' | err e ↦ (err e, s') ]

abbrev pub ◌>>◌ : {S A B : Type 0} → Action S A → Action S B → Action S B
m >> k = m >>= λ _. k

abbrev pub raise_if : {S : Type 0} → Bool → Error → Action S (Unit {0})
raise_if c e s = (if c then err e else ok tt, s)

pub Result-cases :
    {A : Type 0} (r : Result A) → ((a : A) × (r ≡ ok a)) ⊎ ((e : Error) × (r ≡ err e))
Result-cases (ok a) = inl (a, refl)
Result-cases (err e) = inr (e, refl)

pub on_error-state :
    {S A : Type 0} (f : Error → Error) (m : Action S A) (s : S) → (on_error f m s).1 ≡ (m s).1
on_error-state f m s = elim (Result-cases (m s).0) [
  | inl (a, e) ↦ ground arith
  | inr (e', e) ↦ ground arith
]
