-- ===== src/Tests/Crypto.antt =====
-- A key derivation, a token library, and stores, that the laws hold of.
use feature_voting_system.Prelude.{
  ℕ, zero, suc, ◌%◌, ◌≡◌, refl, ap, ◌∙◌, sym, true, false, List, [], ◌∷◌, ◌++◌, Bytes, AreBytes,
  codes, ℤ, length, bytes_eq, bytes_eq_refl, if◌then◌else◌, arith,
}
use feature_voting_system.Errors.{ok}
use feature_voting_system.Service.User.{Passwords}
use feature_voting_system.Service.User.Accounts.{PasswordLaws}
use feature_voting_system.Service.Auth.{IdKey}
use feature_voting_system.Service.Auth.Hashing.{IdKeyLaws}
use feature_voting_system.Jobs.Reconcile.{CountCache}
use feature_voting_system.Middleware.RateLimit.{RateStore}
use feature_voting_system.Middleware.RateLimit.Window.{RateLaws}

-- So many bytes of the password, filled up with zeros.
pub stretch : ℕ → Bytes → Bytes
stretch zero p = []
stretch (suc n) [] = 0 ∷ stretch n []
stretch (suc n) (c ∷ p) = (c % 256) ∷ stretch n p

length-stretch : (n : ℕ) (p : Bytes) → length (stretch n p) ≡ n
unfolding stretch
length-stretch zero p = refl
length-stretch (suc n) [] = ap suc (length-stretch n [])
length-stretch (suc n) (c ∷ p) = ap suc (length-stretch n p)

stretch-AreBytes : (n : ℕ) (p : Bytes) → AreBytes (stretch n p)
unfolding stretch
stretch-AreBytes zero p = tt
stretch-AreBytes (suc n) [] = (omega arith, stretch-AreBytes n [])
stretch-AreBytes (suc n) (c ∷ p) = (omega arith, stretch-AreBytes n p)

abbrev pub id_key : IdKey
id_key password salt time memory threads n = stretch n (password ++ salt)

pub id_key-IdKeyLaws : IdKeyLaws id_key
id_key-IdKeyLaws = record {
  length-key = λ p s n. length-stretch n (p ++ s);
  key-AreBytes = λ p s n. stretch-AreBytes n (p ++ s);
}

-- Passwords that are stored behind a sign.
abbrev pub passwords : Passwords
passwords = record {
  hash_password = λ p. ok (b'$' ∷ p);
  verify_password = λ h p. bytes_eq h (b'$' ∷ p);
}

pub passwords-PasswordLaws : PasswordLaws passwords
passwords-PasswordLaws = record {
  verifies = λ p h made. stored p h made;
  not_empty = λ p h made. filled p h made;
}
  where
    same : {a b : Bytes} → ok a ≡ ok b → a ≡ b
    same e = cc

    stored : (p h : Bytes) → ok (b'$' ∷ p) ≡ ok h → bytes_eq h (b'$' ∷ p) ≡ true
    stored p h made = ap (λ x. bytes_eq x (b'$' ∷ p)) (same (sym made)) ∙ bytes_eq_refl (b'$' ∷ p)

    filled : (p h : Bytes) → ok (b'$' ∷ p) ≡ ok h → bytes_eq h (codes "") ≡ false
    filled p h made = ap (λ x. bytes_eq x (codes "")) (same (sym made)) ∙ cons_filled p
      where
        cons_filled : (p : Bytes) → bytes_eq (b'$' ∷ p) (codes "") ≡ false
        cons_filled p = unfold bytes_eq in refl

-- A counter for each key.
abbrev pub counters : RateStore (Bytes → ℕ)
counters = record {
  incr = λ key w. (ok (suc (w key)), λ k. if bytes_eq k key then suc (w k) else w k);
  expire = λ key seconds w. w;
}

pub counters-RateLaws : RateLaws counters (λ w key. w key)
counters-RateLaws = record {
  incr_ok = λ key w. refl;
  incr_counts = λ key w. ap (λ b. if b then suc (w key) else w key) (bytes_eq_refl key);
  incr_keeps = λ key other w differs. rw differs refl;
  expire_keeps = λ key other seconds w. refl;
}

-- The commands that a cache was sent.
abbrev pub sent : CountCache (List (Bytes × ℤ))
sent = record { set = λ key n log. (key, n) ∷ log }
