-- ===== src/Redis/Votes/Counts.antt =====
-- The cached counts.
use feature_voting_system.Prelude.{
  ◌≡◌, ◌∙◌, ap, refl, false, true, [], ◌∷◌, Bytes, codes, ℤ, IsInt32, arith, bytes_eq,
}
use feature_voting_system.Errors.{ok}
use feature_voting_system.Text.Decimal.{write_int, fits}
use feature_voting_system.Text.Decimal.RoundTrip.{parse-write}
use feature_voting_system.Redis.Votes.{
  Command, CacheClient, count_key, read_count, read_cached, increment_count, get_count,
}

-- A pipeline of a SET and a ZADD that succeeds stores the text, and keeps what other keys hold.
pub record PipelineLaws {Score R : Type 0} (rdb : CacheClient Score R) : Type 0 where
  pub stores :
      (key val zset : Bytes) (score : Score) (member : Bytes) (r : R)
      → (rdb.exec (Command.set key val ∷ Command.zadd zset score member ∷ []) r).0 ≡ ok tt
      → rdb.get key (rdb.exec (Command.set key val ∷ Command.zadd zset score member ∷ []) r).1
        ≡ ok val
  pub keeps :
      (key val zset other : Bytes) (score : Score) (member : Bytes) (r : R)
      → bytes_eq other key ≡ false
      → bytes_eq other zset ≡ false
      → rdb.get other (rdb.exec (Command.set key val ∷ Command.zadd zset score member ∷ []) r).1
        ≡ rdb.get other r

bytes_eq_count : (a b : Bytes) → bytes_eq (count_key a) (count_key b) ≡ bytes_eq a b
unfolding bytes_eq
bytes_eq_count a b = refl

count_ne_top : (a : Bytes) → bytes_eq (count_key a) (codes "top") ≡ false
unfolding bytes_eq
count_ne_top a = refl

-- The count that was cached last for a request is what is read, for every 32-bit count, and the
-- counts of other requests stay. The pipeline succeeds, and stores what it was given.
pub get-increment_count :
    {Score R : Type 0} (rdb : CacheClient Score R) (request other : Bytes) (n : ℤ) (r : R)
    → PipelineLaws rdb
    → IsInt32 n
    → (rdb.exec
        (Command.set (count_key request) (write_int n)
          ∷ Command.zadd (codes "top") (rdb.float64 n) request
          ∷ [])
        r).0
      ≡ ok tt
    → bytes_eq other request ≡ false
    → (get_count rdb request (increment_count rdb request n r) ≡ n)
      × (get_count rdb other (increment_count rdb request n r) ≡ get_count rdb other r)
unfolding get_count increment_count
get-increment_count rdb request other n r laws small done differ =
    let wide : fits 32 n ≡ true = ground arith in
    let held =
      laws.stores (count_key request) (write_int n) (codes "top") (rdb.float64 n) request r done in
    let kept =
      laws.keeps (count_key request) (write_int n) (codes "top") (count_key other) (rdb.float64 n)
        request r (bytes_eq_count other request ∙ differ) (count_ne_top other) in
    (ap read_cached held ∙ ap read_count (parse-write 32 n wide), ap read_cached kept)
