-- ===== src/Database/Tables.antt =====
-- Rows, tables and the lookups by which the SQL statements read them.
use feature_voting_system.Prelude.{
  ℕ, suc, Bool, false, ◌&&◌, ◌||◌, List, [], ◌∷◌, Option, none, some, Bytes, ℤ, ◌==◌, if◌then◌else◌,
}

-- A UUID is its 128 bits as a number, and a TIMESTAMPTZ is its microseconds since 1970.
pub record UserRow : Type 0 where
  pub id : ℕ
  pub email : Bytes
  pub password_hash : Option Bytes
  pub created_at : ℤ

pub record RequestRow : Type 0 where
  pub id : ℕ
  pub author_id : ℕ
  pub title : Bytes
  pub description : Bytes
  pub vote_count : ℤ
  pub created_at : ℤ
  pub updated_at : ℤ

pub record Vote : Type 0 where
  pub user_id : ℕ
  pub request_id : ℕ
  pub created_at : ℤ

pub record Db : Type 0 where
  pub users : List UserRow
  pub requests : List RequestRow
  pub votes : List Vote

-- `WHERE id = $1` on a primary key.
abbrev pub find_request : ℕ → List RequestRow → Option RequestRow
find_request i [] = none
find_request i (r ∷ rs) = if i == r.id then some r else find_request i rs

abbrev pub has_request : ℕ → List RequestRow → Bool
has_request i [] = false
has_request i (r ∷ rs) = i == r.id || has_request i rs

abbrev pub has_user : ℕ → List UserRow → Bool
has_user i [] = false
has_user i (u ∷ us) = i == u.id || has_user i us

abbrev pub is_vote : ℕ → ℕ → Vote → Bool
is_vote u r v = u == v.user_id && r == v.request_id

-- `EXISTS(SELECT 1 FROM votes v WHERE v.request_id = r AND v.user_id = u)`
abbrev pub has_vote : ℕ → ℕ → List Vote → Bool
has_vote u r [] = false
has_vote u r (v ∷ vs) = is_vote u r v || has_vote u r vs

-- `COUNT(votes)` of a request.
abbrev pub count_votes : ℕ → List Vote → ℕ
count_votes r [] = 0
count_votes r (v ∷ vs) = if r == v.request_id then suc (count_votes r vs) else count_votes r vs
