-- ===== src/Database/Driver.antt =====
-- PostgreSQL and its driver pgx, as far as the repositories rely on them. A statement itself is
-- translated where it stands; here is what surrounds it.
use feature_voting_system.Prelude.{
  ℕ, ◌++◌, ◌≡◌, refl, Option, none, some, Bytes, codes, ℤ, AreBytes,
}
use feature_voting_system.Text.Split.{Lacks}

-- The text form of the types, and the messages of the errors that a statement can raise.
pub record Pgx : Type 0 where
  -- `pgtype.UUID.String`, and the reading of a text that stands for a UUID
  pub uuid_text : ℕ → Bytes
  pub parse_uuid : Bytes → Option ℕ
  pub parse-text : (u : ℕ) → parse_uuid (uuid_text u) ≡ some u
  -- the text is made of hexadecimal digits and dashes
  pub text-AreBytes : (u : ℕ) → AreBytes (uuid_text u)
  pub text-Lacks_bar : (u : ℕ) → Lacks b'|' (uuid_text u)
  -- two CITEXT values are equal when these are
  pub citext_fold : Bytes → Bytes
  -- a TIMESTAMPTZ parameter keeps microseconds of the nanoseconds that Go's `time.Time` holds
  pub encode_time : ℤ → ℤ
  pub decode_time : ℤ → ℤ
  pub encode-decode : (t : ℤ) → encode_time (decode_time t) ≡ t
  pub invalid_uuid : Bytes
  pub foreign_key_violation : Bytes
  pub integer_out_of_range : Bytes
  -- the message of a unique violation ends in its SQLSTATE, 23505
  pub unique_violation_head : Bytes
  pub unique_violation_tail : Bytes

abbrev pub unique_violation : Pgx → Bytes
unique_violation pg = pg.unique_violation_head ++ (codes "23505" ++ pg.unique_violation_tail)

-- A commit that reports an error may have been carried out all the same, when the connection is
-- lost before the answer.
pub data Commit : Type 0 where
  committed : Commit
  refused : Bytes → Commit
  in_doubt : Bytes → Commit

-- What the environment does during one call of a repository: the messages of the driver's own
-- failures (connection, timeout, cancelled context), `now()` and `gen_random_uuid()`.
pub record Call : Type 0 where
  pub query_error : Option Bytes
  pub begin_error : Option Bytes
  -- by the statement's place in its transaction; of a query for many rows, 0 is the reading of them
  pub exec_error : ℕ → Option Bytes
  pub commit : Commit
  pub now : ℤ
  pub new_id : ℕ

-- A call in which the driver does not fail.
abbrev pub sound_call : ℤ → ℕ → Call
sound_call now new_id = record {
  query_error = none;
  begin_error = none;
  exec_error = λ _. none;
  commit = Commit.committed;
  now = now;
  new_id = new_id;
}

-- The driver does not fail in this call.
pub record IsSound (c : Call) : Type 0 where
  pub queries : c.query_error ≡ none
  pub begins : c.begin_error ≡ none
  pub first : c.exec_error 0 ≡ none
  pub second : c.exec_error 1 ≡ none
  pub commits : c.commit ≡ Commit.committed

pub sound_call-IsSound : (now : ℤ) (new_id : ℕ) → IsSound (sound_call now new_id)
sound_call-IsSound now new_id = record {
  queries = refl;
  begins = refl;
  first = refl;
  second = refl;
  commits = refl;
}
