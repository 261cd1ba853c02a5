-- ===== src/Tests/Data.antt =====
-- A driver whose UUIDs are written in unary, a small database, and requests to the handlers.
use feature_voting_system.Prelude.{
  bytes_eq, ℕ, zero, suc, length, AreBytes, ◌+◌, ◌*◌, ◌/◌, ◌≡◌, refl, [], ◌∷◌, none, some, Bytes,
  codes, ℤ, pos, negsuc, arith, ap,
}
use feature_voting_system.Text.Split.{Lacks}
use feature_voting_system.Postgres.Users.Emails.{HasUserKeys}
use feature_voting_system.Database.{UserRow, RequestRow, Db, Pgx, Call}
use feature_voting_system.Database.Driver.{sound_call}
use feature_voting_system.Database.Consistency.{IsConsistent}
use feature_voting_system.Http.{Request}
use feature_voting_system.Service.Vote.{VoteCalls}

-- A UUID as so many a's.
abbrev pub unary : ℕ → Bytes
unary zero = []
unary (suc n) = b'a' ∷ unary n

pub length-unary : (n : ℕ) → length (unary n) ≡ n
length-unary zero = refl
length-unary (suc n) = ap suc (length-unary n)

pub unary-AreBytes : (n : ℕ) → AreBytes (unary n)
unary-AreBytes zero = tt
unary-AreBytes (suc n) = (omega arith, unary-AreBytes n)

pub unary-Lacks_bar : (n : ℕ) → Lacks b'|' (unary n)
unary-Lacks_bar zero = tt
unary-Lacks_bar (suc n) = (refl, unary-Lacks_bar n)

-- Microseconds to nanoseconds, and back with the fraction dropped.
abbrev pub nanos : ℤ → ℤ
nanos (pos n) = pos (n * 1000)
nanos (negsuc n) = negsuc (n * 1000 + 999)

abbrev pub micros : ℤ → ℤ
micros (pos n) = pos (n / 1000)
micros (negsuc n) = negsuc (n / 1000)

pub micros-nanos : (t : ℤ) → micros (nanos t) ≡ t
micros-nanos (pos n) = ap pos (omega arith)
micros-nanos (negsuc n) = ap negsuc (omega arith)

abbrev pub pgx : Pgx
pgx = record {
  uuid_text = unary;
  parse_uuid = λ s. some (length s);
  parse-text = λ u. ap some (length-unary u);
  text-AreBytes = unary-AreBytes;
  text-Lacks_bar = unary-Lacks_bar;
  citext_fold = λ s. s;
  encode_time = micros;
  decode_time = nanos;
  encode-decode = micros-nanos;
  invalid_uuid = codes "invalid UUID";
  foreign_key_violation = codes "violates foreign key constraint (SQLSTATE 23503)";
  integer_out_of_range = codes "integer out of range (SQLSTATE 22003)";
  unique_violation_head = codes "duplicate key value violates unique constraint (SQLSTATE ";
  unique_violation_tail = codes ")";
}

abbrev pub call : Call
call = sound_call (pos 500) 77

abbrev pub calls : VoteCalls
calls = record { author = call; write = call; count = call }

abbrev pub member : ℕ → UserRow
member i = record { id = i; email = unary i; password_hash = none; created_at = pos i }

abbrev pub dark_mode : RequestRow
dark_mode = record {
  id = 10;
  author_id = 1;
  title = codes "Dark mode";
  description = codes "Please";
  vote_count = pos 1;
  created_at = pos 100;
  updated_at = pos 200;
}

abbrev pub export_csv : RequestRow
export_csv = record {
  id = 11;
  author_id = 2;
  title = codes "Export";
  description = codes "As CSV";
  vote_count = pos 0;
  created_at = pos 150;
  updated_at = pos 150;
}

-- User 2 has voted on request 10, which user 1 wrote.
abbrev pub db : Db
db = record {
  users = member 1 ∷ member 2 ∷ member 3 ∷ [];
  requests = dark_mode ∷ export_csv ∷ [];
  votes = record { user_id = 2; request_id = 10; created_at = pos 200 } ∷ [];
}

pub db-IsConsistent : IsConsistent db
db-IsConsistent = record {
  counted = (refl, (refl, tt));
  in_range = ground arith;
  request_ids = (refl, (refl, tt));
  one_vote_each = (refl, tt);
  references = ((refl, refl), tt);
}

pub db-HasUserKeys : HasUserKeys pgx db
unfolding bytes_eq
db-HasUserKeys = (ground arith, ground arith, ground arith)

-- `PUT /requests/{id}/vote` as a user.
abbrev pub vote_request : ℕ → ℕ → Request
vote_request u r = record {
  method = codes "PUT";
  path = codes "/requests/x/vote";
  path_id = unary r;
  query = λ _. codes "";
  header = λ _. codes "";
  remote_addr = codes "10.0.0.1";
  context_user = some (unary u);
  form = none;
}
