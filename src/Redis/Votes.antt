-- ===== src/Redis/Votes.antt =====
-- `VoteCache` of internal/repository/redis/votes.go. The commands of Redis are parameters.
pub mod Counts
use feature_voting_system.Prelude.{List, [], ◌∷◌, ◌++◌, Option, none, some, Bytes, codes, ℤ, negsuc}
use feature_voting_system.Errors.{prefixed, Result, ok, err, Action, on_error}
use feature_voting_system.Text.Decimal.{write_int, parse_int}

-- What a pipeline holds; `Score` is float64.
pub data Command (Score : Type 0) : Type 0 where
  set : Bytes → Bytes → Command Score
  zadd : Bytes → Score → Bytes → Command Score

-- The client: a pipeline, GET, ZADD, and ZREVRANGEBYSCORE over all scores with a count.
pub record CacheClient (Score R : Type 0) : Type 0 where
  pub float64 : ℤ → Score
  pub exec : List (Command Score) → Action R (Unit {0})
  pub get : Bytes → R → Result Bytes
  pub zadd_one : Bytes → Score → Bytes → Action R (Unit {0})
  pub zrev_range : Bytes → ℤ → R → Result (List Bytes)

abbrev pub count_key : Bytes → Bytes
count_key request = codes "count:" ++ request

abbrev pub read_count : Option ℤ → ℤ
read_count none = negsuc 0
read_count (some n) = n

-- -1 where nothing is cached, or nothing that is a number.
abbrev pub read_cached : Result Bytes → ℤ
read_cached (err e) = negsuc 0
read_cached (ok val) = read_count (parse_int 32 val)

module _ {Score R : Type 0} (rdb : CacheClient Score R) where
  -- An error of the pipeline is dropped.
  unfoldable pub increment_count : Bytes → ℤ → R → R
  increment_count request n r =
      (rdb.exec
        (Command.set (count_key request) (write_int n)
          ∷ Command.zadd (codes "top") (rdb.float64 n) request
          ∷ [])
        r).1

  abbrev pub decrement_count : Bytes → ℤ → R → R
  decrement_count request n r =
      (rdb.exec
        (Command.set (count_key request) (write_int n)
          ∷ Command.zadd (codes "top") (rdb.float64 n) request
          ∷ [])
        r).1

  unfoldable pub get_count : Bytes → R → ℤ
  get_count request r = read_cached (rdb.get (count_key request) r)

  abbrev pub set_trending_score : Bytes → Score → Action R (Unit {0})
  set_trending_score request score = rdb.zadd_one (codes "trending") score request

  abbrev pub wrap_ranked : Bytes → Result (List Bytes) → Result (List Bytes)
  wrap_ranked what (ok ids) = ok ids
  wrap_ranked what (err e) = err (prefixed what e)

  abbrev pub get_top_ranked : ℤ → R → Result (List Bytes)
  get_top_ranked n r = wrap_ranked (codes "get top ranked: ") (rdb.zrev_range (codes "top") n r)

  abbrev pub get_trending_ranked : ℤ → R → Result (List Bytes)
  get_trending_ranked n r =
      wrap_ranked (codes "get trending ranked: ") (rdb.zrev_range (codes "trending") n r)
