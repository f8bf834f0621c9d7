-- ===== src/Session/Laws/Ended.antt =====
-- How all sessions of a user end: by logging out of all, and by using a spent token again.
use golang_template.Prelude.{
  ℕ, ◌+◌, ◌≡◌, refl, String, true, false, eqb, ◌||◌, not, List, [], ◌∷◌, Option, none, some, All,
  arith,
}
use golang_template.Errors.{is, refresh_reuse, sentinel, message, Result, ok, err}
use golang_template.Storage.{Db, statement, raise, with_tx, attempt, ◌>>=◌}
use golang_template.Storage.Yields.{Yields, Yields-statement}
use golang_template.Storage.Keeps.{Keeps, Keeps-statement}
use golang_template.Outbox.Claim.{is_null}
use golang_template.Session.{
  User, RefreshSession, Tables, session_by, user_by, get_by_id, revoke_where, revoke_if, has_user,
  revoke_all_for_user, increment, increment_token_version, bump_version, rotate,
}
use golang_template.Session.Claims.{Claims, must_claim, claim_int, parse_refresh}
use golang_template.Session.Blocklist.{blocked}
use golang_template.Session.Steps.{
  World, Draws, Module, Answer, go, stop, Reply, refused, no_content, Step, next, refuse, give,
  or_refuse, on_db, left_db, on_blocklist, left_blocklist, refuse_if, reply,
}
use golang_template.Session.Steps
use golang_template.Session.Handlers.{
  Principal, logout_all, refresh_token, other_version, after_rotate,
}

-- No session of a user is open.
abbrev pub AllEnded : ℕ → List RefreshSession → Type 0
AllEnded user_id ss =
    All (λ s. (not (eqb s.user_id user_id) || not (is_null s.revoked_at)) ≡ true) ss

revoke_if-ends :
    (user_id now : ℕ) (r : Option ℕ) (s : RefreshSession)
    → (not (eqb (revoke_if (has_user user_id s) now r s).user_id user_id)
        || not (is_null (revoke_if (has_user user_id s) now r s).revoked_at))
      ≡ true
revoke_if-ends user_id now r s = ground arith

revoke_where-AllEnded :
    (user_id now : ℕ) (replaced : RefreshSession → Option ℕ) (ss : List RefreshSession)
    → AllEnded user_id (revoke_where (has_user user_id) now replaced ss)
unfolding revoke_where
revoke_where-AllEnded user_id now replaced [] = tt
revoke_where-AllEnded user_id now replaced (s ∷ ss) =
    (revoke_if-ends user_id now (replaced s) s, revoke_where-AllEnded user_id now replaced ss)

revoke_all-ends :
    (now user_id : ℕ)
    → Yields
        (λ t. Unit)
        (revoke_all_for_user now user_id)
        (λ a t. AllEnded user_id t.refresh_tokens)
unfolding revoke_all_for_user
revoke_all-ends now user_id =
    Yields-statement _
      (λ t a p h. revoke_where-AllEnded user_id now (λ s. s.replaced_by) t.refresh_tokens)

increment-ended :
    (user_id id : ℕ) → Keeps (λ t. AllEnded user_id t.refresh_tokens) (increment_token_version id)
unfolding increment_token_version
increment-ended user_id id = Keeps-statement (increment id) (λ t p. p)

abbrev Ended : ℕ → World → Type 0
Ended user_id w = AllEnded user_id w.db.tables.refresh_tokens

module _ (user_id : ℕ) where
  -- A call whose error is answered 500, and what follows it.
  after_ending :
      (w : World) (a : Result (Unit {0}) × Db Tables) (k : Unit {0} → Step Reply)
      → ((u : Unit {0}) → a.0 ≡ ok u → AllEnded user_id a.1.tables.refresh_tokens)
      → ((v : World) → Ended user_id v → Ended user_id (k tt v).1)
      → (next (λ r. Steps.◌>>=◌ (or_refuse 500 r) k) (left_db w a)).0 ≡ stop no_content
      → Ended user_id (next (λ r. Steps.◌>>=◌ (or_refuse 500 r) k) (left_db w a)).1
  unfolding or_refuse Steps.◌>>=◌
  after_ending w (ok u, db) k ends goes h = goes (record w { db = db }) (ends u refl)
  after_ending w (err e, db) k ends goes h = cc

  after_bump :
      (w : World) (a : Result ℕ × Db Tables) (k : ℕ → Step Reply)
      → AllEnded user_id a.1.tables.refresh_tokens
      → ((v : World) (n : ℕ) → Ended user_id v → Ended user_id (k n v).1)
      → Ended user_id (next (λ r. Steps.◌>>=◌ (or_refuse 500 r) k) (left_db w a)).1
  unfolding or_refuse Steps.◌>>=◌
  after_bump w (ok n, db) k ended goes = goes (record w { db = db }) n ended
  after_bump w (err e, db) k ended goes = ended

-- After a logout of all sessions that was answered 204, no session of the user is open.
pub logout_all_ends_sessions :
    (m : Module) (d : Draws) (p : Principal) (w : World)
    → (logout_all m d (some p) w).0 ≡ stop no_content
    → AllEnded p.id (logout_all m d (some p) w).1.db.tables.refresh_tokens
unfolding logout_all Steps.◌>>=◌ on_db on_blocklist
logout_all_ends_sessions m d p w h =
    after_ending p.id w (revoke_all_for_user d.db_now p.id w.db) _
      (λ u done. (revoke_all-ends d.db_now p.id).at w.db u tt done)
      (λ v ended.
        after_bump p.id v (increment_token_version p.id v.db) _
          ((increment-ended p.id p.id).at v.db ended) (λ x n e. e))
      h

-- `Rotate` of a spent token on a connection without faults.
rotate-reused :
    (new_id now old new user_id expires_at at : ℕ) (s : RefreshSession) (t : Tables)
    → session_by old t.refresh_tokens ≡ some s
    → s.revoked_at ≡ some at
    → rotate new_id now old new user_id expires_at (record { tables = t; faults = [] })
      ≡ (err (sentinel refresh_reuse), record { tables = t; faults = [] })
unfolding rotate with_tx statement ◌>>=◌ attempt raise
rotate-reused new_id now old new user_id expires_at at s t found spent = rw found (rw spent refl)

-- No Redis, and a connection without faults.
abbrev pub calm : Tables → World
calm t = record { db = record { tables = t; faults = [] }; blocklist = none }

-- Without a blocklist, and on a connection without faults, a refresh with a spent token that is
-- otherwise in order is answered 401, and then no session of the user is open and the user's
-- version is counted up.
pub reuse_ends_all_sessions :
    (m : Module) (d : Draws) (payload : Result String) (raw : String) (claims : Claims)
    (jti user_id at : ℕ) (u : User) (s : RefreshSession) (t : Tables)
    → payload ≡ ok raw
    → parse_refresh m.codec raw ≡ ok claims
    → m.codec.parse_uuid (must_claim claims "jti") ≡ ok jti
    → m.codec.parse_uuid (must_claim claims "sub") ≡ ok user_id
    → user_by (λ v. eqb v.id user_id) t.users ≡ some u
    → other_version (claim_int claims "ver") u.token_version ≡ false
    → session_by jti t.refresh_tokens ≡ some s
    → s.revoked_at ≡ some at
    → let (answer, left) = refresh_token m d payload (calm t) in
      (answer ≡ stop (refused 401 (message "refresh token reuse detected")))
      × AllEnded user_id left.db.tables.refresh_tokens
      × (left.db.tables.users ≡ bump_version user_id t.users)
unfolding refresh_token Steps.◌>>=◌ or_refuse on_blocklist on_db blocked get_by_id statement
    refuse_if after_rotate is revoke_all_for_user increment_token_version
reuse_ends_all_sessions m d payload raw claims jti user_id at u s t at_raw at_claims at_jti at_sub
      found_user same_version found spent =
    let reused =
      rotate-reused d.new_id d.db_now jti d.new_jti user_id (d.now + m.refresh_exp) at s t found
        spent in
    rw at_raw (
      rw at_claims (
        rw at_jti (
          rw at_sub (
            rw found_user (
              rw same_version (
                rw reused (
                  refl,
                  revoke_where-AllEnded user_id d.db_now (λ x. x.replaced_by) t.refresh_tokens,
                  refl,
                )))))))
