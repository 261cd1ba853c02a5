-- ===== src/Handler/Votes/Status.antt =====
-- The status codes of the vote handlers.
use feature_voting_system.Prelude.{
  ℕ, ◌≡◌, ◌≢◌, ◌↔◌, ◌⊎◌, ◌∙◌, ap, sym, false, some, Bytes, codes, arith, bytes_eq, bytes_eq_iff,
  Bool-cases, Option-cases, inl, inr,
}
use mathlib.Core.Bool.{false≢true}
use feature_voting_system.Errors.{Sentinel, Error, ok, err, Result-cases}
use feature_voting_system.Http.{Request, get_user_id}
use feature_voting_system.Service.Vote
use feature_voting_system.Service.Vote.{VoteRepo, VoteLaws}
use feature_voting_system.Handler.Votes.{upvote, remove_vote}

-- The user that the middleware put in the context, and that is not empty.
abbrev pub IsSignedIn : Request → Bytes → Type 0
IsSignedIn r user = (r.context_user ≡ some user) × (bytes_eq user (codes "") ≡ false)

abbrev pub IsAnonymous : Request → Type 0
IsAnonymous r = (get_user_id r.context_user).1 ≡ false

two_codes : {n : ℕ} → (n ≡ 200) ⊎ (n ≡ 500) → (code : ℕ) → n ≡ code → code ≢ 200 → code ≢ 500 → ⊥
two_codes h code e a b = omega arith

ok_inj : {a b : Bytes} → ok a ≡ ok b → a ≡ b
ok_inj h = cc

module _ {S : Type 0} (repo : VoteRepo S) (laws : VoteLaws repo) (r : Request) (s : S) where
  -- Past the check of the author an upvote ends in 200 or 500.
  upvote_other :
      (user author : Bytes)
      → IsSignedIn r user
      → (repo.get_request_author_id r.path_id s).0 ≡ ok author
      → bytes_eq author user ≡ false
      → ((upvote repo r s).0.status ≡ 200) ⊎ ((upvote repo r s).0.status ≡ 500)
  unfolding upvote Vote.upvote
  upvote_other user author signed read other =
      let s' = (repo.insert_vote user r.path_id s).1 in
      elim (Result-cases (repo.insert_vote user r.path_id s).0) [
        | inr (e, failed) ↦ inr (
            ground (
              arith,
              laws.author_pure r.path_id s,
              laws.insert_foreign user r.path_id s e Sentinel.self_vote failed,
              laws.insert_foreign user r.path_id s e Sentinel.not_found failed,
            ))
        | inl (b, inserted) ↦ elim (Result-cases (repo.get_vote_count r.path_id s').0) [
          | inr (e, failed) ↦ inr (
              ground (
                arith,
                laws.author_pure r.path_id s,
                laws.count_foreign r.path_id s' e Sentinel.self_vote failed,
                laws.count_foreign r.path_id s' e Sentinel.not_found failed,
              ))
          | inl (n, counted) ↦ inl (ground (arith, laws.author_pure r.path_id s))
        ]
      ]

  -- For a user who is signed in, 403 is answered exactly when the request's author is this user,
  -- and 404 exactly when the query for the author failed, for whatever reason. The repository's
  -- queries change nothing, and no other of its errors holds a sentinel.
  pub upvote_status :
      (user : Bytes)
      → IsSignedIn r user
      → (((upvote repo r s).0.status ≡ 403)
          ↔ ((repo.get_request_author_id r.path_id s).0 ≡ ok user))
        × (((upvote repo r s).0.status ≡ 404)
            ↔ ((e : Error) × ((repo.get_request_author_id r.path_id s).0 ≡ err e)))
  unfolding upvote Vote.upvote
  upvote_status user signed = elim (Result-cases (repo.get_request_author_id r.path_id s).0) [
    | inr (e, failed) ↦ (ground arith, (λ _. (e, failed), λ _. ground arith))
    | inl (author, read) ↦ elim (Bool-cases (bytes_eq author user)) [
      | inl own ↦ (
        (λ _. read ∙ ap ok ((bytes_eq_iff author user).0 own), λ _. ground arith),
        ((λ h. absurd (ground arith)), λ h. absurd (cc (h.1, read))),
      )
      | inr other ↦
          let ends = upvote_other user author signed read other in
          (
            (
              (λ h. absurd (two_codes ends 403 h (omega arith) (omega arith))),
              λ h.
                  absurd
                    (false≢true (sym other ∙ (bytes_eq_iff author user).1 (ok_inj (sym read ∙ h)))),
            ),
            (
              (λ h. absurd (two_codes ends 404 h (omega arith) (omega arith))),
              λ h. absurd (cc (h.1, read)),
            ),
          )
    ]
  ]

  refused_signed :
      (user : Bytes)
      → IsSignedIn r user
      → (upvote repo r s).0.status ≢ 200
      → (upvote repo r s).0.status ≢ 500
      → (upvote repo r s).1 ≡ s
  unfolding upvote Vote.upvote
  refused_signed user signed not_ok not_failed =
      elim (Result-cases (repo.get_request_author_id r.path_id s).0) [
        | inr (e, failed) ↦ ground (arith, laws.author_pure r.path_id s)
        | inl (author, read) ↦ elim (Bool-cases (bytes_eq author user)) [
          | inl own ↦ ground (arith, laws.author_pure r.path_id s)
          | inr other ↦ elim (upvote_other user author signed read other) [
            | inl h ↦ absurd (not_ok h)
            | inr h ↦ absurd (not_failed h)
          ]
        ]
      ]

  -- An upvote that is answered by neither 200 nor 500 has written nothing, over a repository
  -- whose queries change nothing and whose errors of writing and counting hold no sentinel.
  pub upvote_refused :
      (upvote repo r s).0.status ≢ 200 → (upvote repo r s).0.status ≢ 500 → (upvote repo r s).1 ≡ s
  upvote_refused not_ok not_failed = elim (Option-cases r.context_user) [
    | inl anonymous ↦ unfold upvote in ground arith
    | inr (user, there) ↦ elim (Bool-cases (bytes_eq user (codes ""))) [
      | inl blank ↦ unfold upvote in ground arith
      | inr named ↦ refused_signed user (there, named) not_ok not_failed
    ]
  ]

-- The removal of a vote by a user who is signed in is answered by 404 exactly when the query for
-- the author failed.
pub remove_vote_status :
    {S : Type 0} (repo : VoteRepo S) (laws : VoteLaws repo) (r : Request) (s : S) (user : Bytes)
    → IsSignedIn r user
    → ((remove_vote repo r s).0.status ≡ 404)
      ↔ ((e : Error) × ((repo.get_request_author_id r.path_id s).0 ≡ err e))
unfolding remove_vote Vote.remove_vote
remove_vote_status repo laws r s user signed =
    let s' = (repo.delete_vote user r.path_id s).1 in
    elim (Result-cases (repo.get_request_author_id r.path_id s).0) [
      | inr (e, failed) ↦ ((λ _. (e, failed)), λ _. ground arith)
      | inl (author, read) ↦ elim (Result-cases (repo.delete_vote user r.path_id s).0) [
        | inr (e, failed) ↦ (
          (λ h. absurd (
              ground (
                arith,
                laws.author_pure r.path_id s,
                laws.delete_foreign user r.path_id s e Sentinel.not_found failed,
              ))),
          λ h. absurd (cc (h.1, read)),
        )
        | inl (b, deleted) ↦ elim (Result-cases (repo.get_vote_count r.path_id s').0) [
          | inr (e, failed) ↦ (
            (λ h. absurd (
                ground (
                  arith,
                  laws.author_pure r.path_id s,
                  laws.count_foreign r.path_id s' e Sentinel.not_found failed,
                ))),
            λ h. absurd (cc (h.1, read)),
          )
          | inl (n, counted) ↦ (
            (λ h. absurd (ground (arith, laws.author_pure r.path_id s))),
            λ h. absurd (cc (h.1, read)),
          )
        ]
      ]
    ]
