-- ===== src/Tests/Jobs.antt =====
-- A round of reconciliation, and requests against the limit.
use feature_voting_system.Prelude.{
  ℕ, suc, ◌-◌, ◌+◌, ◌≡◌, refl, [], ◌∷◌, List, some, none, Bytes, codes, pos, arith, bytes_eq,
  if◌then◌else◌, bytes_eq_refl, map, ap, Bool, true, ◌+ℤ◌,
}
use Prim.Native.Nat.{min}
use feature_voting_system.Errors.{Result, ok, err, plain}
use feature_voting_system.Http.{Request, Response, Body, HttpHandler, write_json, empty}
use feature_voting_system.Database.{Db, Call}
use feature_voting_system.Database.Consistency.{IsConsistent}
use feature_voting_system.Jobs.Reconcile.{reconcile, reconcile_store}
use feature_voting_system.Jobs.Reconcile.Repair.{IsFixed}
use feature_voting_system.Jobs.Reconcile.Round.{reconcile-IsFixed, reconcile-IsConsistent}
use feature_voting_system.Middleware.RateLimit.{rate_key}
use feature_voting_system.Middleware.RateLimit.Window.{with_key, serve_all, serve_all-limit}
use mathlib.Core.List.{Memᴰ}
use feature_voting_system.Jobs.Reconcile.Stale.{IsStale, fix-IsStale}
use feature_voting_system.Database.Driver.{sound_call-IsSound}
use feature_voting_system.Postgres.Votes.{insert_vote}
use feature_voting_system.Postgres.Votes.Insert.{insert_vote_new}
use feature_voting_system.Postgres.Requests.{filter}
use feature_voting_system.Postgres.Ranking.{
  Mismatch, scan_mismatch, get_vote_count_mismatches, fix_vote_count,
}
use feature_voting_system.Text.Decimal.{write_int}
use feature_voting_system.Tests.Data.{unary, pgx, call, db, dark_mode, export_csv, vote_request}
use feature_voting_system.Tests.Crypto.{counters, counters-RateLaws, sent}

-- The counters have drifted: request 10 has one vote, and request 11 none.
abbrev drifted : Db
drifted = record db {
  requests =
      record dark_mode { vote_count = pos 7 } ∷ record export_csv { vote_count = pos 2 } ∷ [];
}

-- The fix of request 11 fails.
abbrev one_fails : Bytes → Call
one_fails request = record call {
  query_error = if bytes_eq request (unary 11) then some (codes "timeout") else none;
}

abbrev lost_read : Call
lost_read = record call { query_error = some (codes "conn closed") }

reconcile-IsFixed_example :
    let (out, (db', log)) = reconcile (reconcile_store pgx sent call one_fails) (drifted, []) in
    (out ≡ ok tt)
    × (db'.users ≡ drifted.users)
    × (db'.votes ≡ drifted.votes)
    × IsFixed pgx one_fails drifted.votes drifted.requests db'.requests
reconcile-IsFixed_example =
    reconcile-IsFixed pgx sent call one_fails drifted [] refl refl (ground arith)

reconcile-IsConsistent_example :
    IsConsistent (reconcile (reconcile_store pgx sent call (λ _. call)) (drifted, [])).1.0
reconcile-IsConsistent_example =
    reconcile-IsConsistent pgx sent call (λ _. call) drifted [] refl refl (λ _. refl) (ground arith)
      (ground arith) (ground arith) (ground arith) (ground arith)

abbrev fine : Response (Body ℕ)
fine = write_json 200 empty

abbrev four : List (ℕ × Request)
four =
    (1000, vote_request 1 10)
    ∷ (1001, vote_request 2 10)
    ∷ (1001, vote_request 1 11)
    ∷ (1010, vote_request 1 10)
    ∷ []

-- Three requests of one user in one window, of which two may pass, and one of another user.
serve_all-limit_example :
    let key = rate_key (unary 1) 60 1000 in
    (serve_all counters (λ w k. w k) counters-RateLaws 2 60 fine key four 0 (λ _. 0)).0
    ≡ 0 + (min 2 (0 + with_key 60 key four) - min 2 0)
serve_all-limit_example =
    serve_all-limit counters (λ w k. w k) counters-RateLaws 2 60 fine (rate_key (unary 1) 60 1000)
      four 0 (λ _. 0)

four-with_key : with_key 60 (rate_key (unary 1) 60 1000) four ≡ 3
unfolding bytes_eq
four-with_key = rw (bytes_eq_refl (write_int (pos 16))) refl

-- A vote on request 11, whose counter is 2 and should be 0.
abbrev listed : List Mismatch
listed = map (scan_mismatch pgx drifted.votes) drifted.requests

drifted_mismatches : (get_vote_count_mismatches pgx call drifted).0 ≡ ok listed
unfolding get_vote_count_mismatches filter
drifted_mismatches = refl

late_vote : (insert_vote pgx call (unary 3) (unary 11) drifted).0 ≡ ok true
unfolding ◌+ℤ◌
late_vote =
    ap (λ (o : Result Bool × Db). o.0)
      (insert_vote_new pgx call (unary 3) (unary 11) 3 11 (record export_csv { vote_count = pos 2 })
        drifted (sound_call-IsSound (pos 500) 77) refl refl refl refl (ground arith) refl)

fix-IsStale_example :
    let m = scan_mismatch pgx drifted.votes (record export_csv { vote_count = pos 2 }) in
    IsStale pgx m
      (fix_vote_count pgx call m.id m.actual_count
        (insert_vote pgx call (unary 3) m.id drifted).1).1
fix-IsStale_example =
    fix-IsStale pgx call call call drifted listed _ (unary 3) drifted_mismatches
      (Memᴰ.tail (Memᴰ.head refl)) late_vote refl

-- Tokens are the names of their users.
abbrev verify : Bytes → Result Bytes
verify token = if bytes_eq token (codes "") then err (plain (codes "no token")) else ok token

abbrev who : HttpHandler ℕ ℕ
who r s = (fine, suc s)

abbrev bearing : Request
bearing = record (vote_request 1 10) { header = λ _. codes "BEARER ann"; context_user = none }
