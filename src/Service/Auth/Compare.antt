-- ===== src/Service/Auth/Compare.antt =====
-- The comparison of hashes that looks at every byte decides equality.
use feature_voting_system.Prelude.{
  ℕ, ◌<◌, ◌≡◌, ◌↔◌, refl, true, [], ◌∷◌, Bytes, AreBytes, length, arith,
}
use mathlib.Core.Path.{subst}
use feature_voting_system.Service.Auth.{differences, equal_hashes}
use feature_voting_system.Service.Auth.Bits.{
  bits_xor, bits_or, bits_xor-lt, bits_or-lt, bits_xor_self, eq_of_bits_xor, bits_or_zero,
  zero_of_bits_or,
}

differences_self : (s : Bytes) → differences 0 s s ≡ 0
unfolding differences
differences_self [] = refl
differences_self (a ∷ s) = rw (bits_xor_self 8 a, bits_or_zero 8) (differences_self s)

differences_zero :
    (diff : ℕ) (s t : Bytes)
    → diff < 256
    → AreBytes s
    → AreBytes t
    → length s ≡ length t
    → differences diff s t ≡ 0
    → (diff ≡ 0) × (s ≡ t)
unfolding differences
differences_zero diff [] [] small hs ht same h = (h, refl)
differences_zero diff [] (b ∷ t) small hs ht same h = absurd (omega arith)
differences_zero diff (a ∷ s) [] small hs ht same h = absurd (omega arith)
differences_zero diff (a ∷ s) (b ∷ t) small hs ht same h =
    let (none_yet, rest) =
      differences_zero (bits_or 8 diff (bits_xor 8 a b)) s t (bits_or-lt 8 diff (bits_xor 8 a b))
        hs.1 ht.1 (omega arith) h in
    let (before, here) =
      zero_of_bits_or 8 diff (bits_xor 8 a b) small (bits_xor-lt 8 a b) none_yet in
    (before, λ i. eq_of_bits_xor 8 a b hs.0 ht.0 here i ∷ rest i)

equal_hashes_self : (s : Bytes) → equal_hashes s s ≡ true
unfolding equal_hashes
equal_hashes_self s = ground (arith, differences_self s)

-- The loop that folds the differences of all bytes of two hashes into one answers whether the
-- hashes are equal.
pub equal_hashes_iff : (s t : Bytes) → AreBytes s → AreBytes t → (equal_hashes s t ≡ true) ↔ (s ≡ t)
unfolding equal_hashes
equal_hashes_iff s t hs ht = (
  λ h. (differences_zero 0 s t (omega arith) hs ht (ground arith) (ground arith)).1,
  λ e. subst (λ u. equal_hashes s u ≡ true) e (equal_hashes_self s),
)
