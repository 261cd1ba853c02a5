-- ===== src/Service/Substring.antt =====
-- `containsAny` of internal/service/user.go, and what it finds.
use feature_voting_system.Prelude.{
  ℕ, zero, suc, ◌+◌, ◌-◌, ◌≤◌, ◌<◌, ◌≡◌, ◌↔◌, ◌⊎◌, ◌∙◌, sym, ap, inl, inr, Bool, true, false, ◌||◌,
  List, [], ◌∷◌, ◌++◌, Bytes, bytes_eq, bytes_eq_iff, bytes_eq_refl, leb, arith, if◌then◌else◌,
  Bool-cases, length, take, drop, length-append, take-append-drop, drop-append, take-append,
}

-- `s[i:i+len(sub)] == sub`
abbrev matches_at : Bytes → Bytes → ℕ → Bool
matches_at s sub i = bytes_eq (take (length sub) (drop i s)) sub

-- The inner loop from `i`, with the rounds that are left.
find_from : ℕ → ℕ → Bytes → Bytes → Bool
find_from zero i s sub = false
find_from (suc k) i s sub =
    let rest = find_from k (i + 1) s sub in if matches_at s sub i then true else rest

contains : Bytes → Bytes → Bool
unfolding find_from
contains s sub =
    if leb (length sub) (length s) then find_from (length s - length sub + 1) 0 s sub else false

unfoldable pub contains_any : Bytes → List Bytes → Bool
unfolding contains
contains_any s [] = false
contains_any s (sub ∷ subs) = contains s sub || contains_any s subs

-- `sub` stands somewhere in `s`.
abbrev pub IsInfix : Bytes → Bytes → Type 0
IsInfix sub s = (p : Bytes) × (q : Bytes) × (s ≡ p ++ (sub ++ q))

abbrev pub HasSome : Bytes → List Bytes → Type 0
HasSome s [] = ⊥
HasSome s (sub ∷ subs) = IsInfix sub s ⊎ HasSome s subs

find_from_sound :
    (k i : ℕ) (s sub : Bytes) → find_from k i s sub ≡ true → (n : ℕ) × (matches_at s sub n ≡ true)
unfolding find_from
find_from_sound zero i s sub h = cc
find_from_sound (suc k) i s sub h = elim (Bool-cases (matches_at s sub i)) [
  | inl here ↦ (i, here)
  | inr other ↦ find_from_sound k (i + 1) s sub (rw other at h)
]

past :
    (i n : ℕ) (s sub : Bytes)
    → i ≤ n
    → matches_at s sub n ≡ true
    → matches_at s sub i ≡ false
    → i + 1 ≤ n
past i n s sub low h other = grind arith

or_right : (a b : Bool) → b ≡ true → (a || b) ≡ true
or_right a b h = ground arith

find_from_complete :
    (k i n : ℕ) (s sub : Bytes)
    → i ≤ n
    → n < i + k
    → matches_at s sub n ≡ true
    → find_from k i s sub ≡ true
unfolding find_from
find_from_complete zero i n s sub low high h = absurd (omega arith)
find_from_complete (suc k) i n s sub low high h = elim (Bool-cases (matches_at s sub i)) [
  | inl here ↦ rw here
  | inr other ↦
      rw other (find_from_complete k (i + 1) n s sub (past i n s sub low h other) (omega arith) h)
]

-- A match makes a part of the text, with what stands before it and behind.
matches-IsInfix : (s sub : Bytes) (n : ℕ) → matches_at s sub n ≡ true → IsInfix sub s
matches-IsInfix s sub n h =
    let here = (bytes_eq_iff (take (length sub) (drop n s)) sub).0 h in
    (
      take n s,
      drop (length sub) (drop n s),
      sym (take-append-drop n s)
          ∙ ap (λ t. take n s ++ t)
              (sym (take-append-drop (length sub) (drop n s))
                ∙ ap (λ t. t ++ drop (length sub) (drop n s)) here),
    )

infix-matches : (p sub q : Bytes) → matches_at (p ++ (sub ++ q)) sub (length p) ≡ true
infix-matches p sub q = rw (drop-append p (sub ++ q), take-append sub q) (bytes_eq_refl sub)

contains_sound : (s sub : Bytes) → contains s sub ≡ true → IsInfix sub s
unfolding contains
contains_sound s sub h = elim (Bool-cases (leb (length sub) (length s))) [
  | inl short ↦
      let (n, found) = find_from_sound (length s - length sub + 1) 0 s sub (rw short at h) in
      matches-IsInfix s sub n found
  | inr long ↦ absurd (ground arith)
]

contains_complete : (p sub q : Bytes) → contains (p ++ (sub ++ q)) sub ≡ true
unfolding contains
contains_complete p sub q =
    let s = p ++ (sub ++ q) in
    let found =
      find_from_complete (length s - length sub + 1) 0 (length p) s sub (omega arith)
        (omega (arith, length-append p (sub ++ q), length-append sub q)) (infix-matches p sub q) in
    ground (arith, found, length-append p (sub ++ q), length-append sub q)

-- The loops find what they look for and nothing else: the result is true exactly when one of the
-- texts stands somewhere in `s`.
pub contains_any_iff :
    (s : Bytes) (subs : List Bytes) → (contains_any s subs ≡ true) ↔ HasSome s subs
unfolding contains_any
contains_any_iff s [] = ((λ h. cc), λ h. absurd h)
contains_any_iff s (sub ∷ subs) = (
  (λ h. elim (Bool-cases (contains s sub)) [
    | inl here ↦ inl (contains_sound s sub here)
    | inr other ↦ inr ((contains_any_iff s subs).0 (rw other at h))
  ]),
  elim [
    | inl (p, q, e) ↦ rw (e, contains_complete p sub q)
    | inr more ↦ or_right (contains s sub) _ ((contains_any_iff s subs).1 more)
  ],
)
