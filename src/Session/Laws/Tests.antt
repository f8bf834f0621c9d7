-- ===== src/Session/Laws/Tests.antt =====
-- Runs with one user who has two sessions, of which one is renewed.
use golang_template.Prelude.{
  ℕ, String, ◌==◌, ◌≡◌, ◌≢◌, refl, true, [], ◌∷◌, none, some, if◌then◌else◌,
}
use golang_template.Prelude.Int.{pos}
use golang_template.Errors.{message, ok, err}
use golang_template.Storage.{Db}
use golang_template.Session.{User, RefreshSession, Tables, rotate, bump_version}
use golang_template.Session.Claims.{Claim, text, number, Claims, Codec}
use golang_template.Session.Blocklist.{Blocklist, Cache, ban}
use golang_template.Session.Steps.{World, Draws, Module, stop, refused, no_content}
use golang_template.Session.Handlers.{Principal, refresh_token, logout_all}
use golang_template.Session.Laws.Once.{inserted, revoked_all, after_calls, renewed_at_most_once}
use golang_template.Session.Laws.Reuse.{banned_token_spares_sessions}
use golang_template.Session.Laws.Ended.{
  AllEnded, logout_all_ends_sessions, calm, reuse_ends_all_sessions,
}

abbrev user_7 : User
user_7 = record { id = 7; email = "a@b"; password_hash = "h"; is_active = true; token_version = 0 }

abbrev session_of : ℕ → ℕ → RefreshSession
session_of id jti = record {
  id = id;
  user_id = 7;
  jti = jti;
  expires_at = 500;
  revoked_at = none;
  replaced_by = none;
}

abbrev tables : Tables
tables = record { users = user_7 ∷ []; refresh_tokens = session_of 1 11 ∷ session_of 2 22 ∷ [] }

abbrev start : Db Tables
start = record { tables = tables; faults = [] }

renewed_at_most_once_example :
    (rotate 4 200 11 44 7 600 (
      after_calls
        (inserted 5 7 55 600 ∷ revoked_all 150 7 ∷ [])
        (rotate 3 100 11 33 7 600 start).1)).0
    ≢ ok tt
unfolding rotate golang_template.Storage.with_tx golang_template.Storage.◌>>=◌
    golang_template.Storage.statement golang_template.Session.session_by
    golang_template.Storage.pure golang_template.Session.insert golang_template.Session.user_by
    golang_template.Session.some_open
renewed_at_most_once_example =
    renewed_at_most_once 3 100 11 33 7 600 start tt refl
      (inserted 5 7 55 600 ∷ revoked_all 150 7 ∷ []) 4 200 44 7 600 tt

-- A token is its claims' number, and identifiers are written as one letter.
abbrev claims_of : String → Claims
claims_of jti key =
    if key == "typ"
    then some (text "refresh")
    else if key == "jti"
    then some (text jti)
    else if key == "sub"
    then some (text "u")
    else if key == "ver"
    then some (number (pos 0))
    else if key == "exp"
    then some (number (pos 500))
    else none

abbrev codec : Codec
codec = record {
  validate_token = λ raw. ok (claims_of raw);
  generate_token = λ claims. ok "signed";
  parse_uuid =
      λ s. if s == "u" then ok 7 else if s == "k" then ok 11 else err (message "invalid UUID");
  show_uuid = λ n. "k";
}

abbrev module_of : Module
module_of = record {
  codec = codec;
  token_exp = 900;
  refresh_exp = 500;
  token_iss = "iss";
  token_aud = "aud";
}

abbrev draws : Draws
draws = record { now = 100; db_now = 100; new_jti = 33; new_id = 3; access_jti = 99 }

abbrev cache : Db Cache
cache = record { tables = []; faults = [] }

-- After a refresh that succeeded: the old token is renewed and banned.
abbrev renewed : World
renewed = (refresh_token module_of draws (ok "k") (record { db = start; blocklist = some cache })).1

abbrev banned : Db Cache
banned = record { tables = ("auth:bl:k", 500) ∷ []; faults = [] }

renewed_blocklist : renewed.blocklist ≡ some banned
unfolding refresh_token golang_template.Session.Steps.◌>>=◌ golang_template.Session.Steps.or_refuse
    golang_template.Session.Claims.parse_refresh golang_template.Session.Claims.claim_string
    golang_template.Session.Claims.must_claim golang_template.Session.Steps.on_blocklist
    golang_template.Session.Blocklist.blocked golang_template.Storage.statement
    golang_template.Session.Steps.refuse_if golang_template.Session.Blocklist.exists
    golang_template.Session.Steps.on_db golang_template.Session.get_by_id
    golang_template.Session.user_by golang_template.Session.Claims.claim_int
    golang_template.Session.Handlers.after_rotate rotate golang_template.Storage.with_tx
    golang_template.Storage.◌>>=◌ golang_template.Session.session_by golang_template.Storage.pure
    golang_template.Session.insert golang_template.Session.some_open
    golang_template.Session.Handlers.issue_pair_with_refresh_jti ban
    golang_template.Session.Claims.int64_from_exp
renewed_blocklist = refl

banned_token_spares_sessions_example :
    (refresh_token module_of draws
      (ok "k")
      (record { db = renewed.db; blocklist = some banned })).1.db
    ≡ renewed.db
unfolding golang_template.Session.Claims.parse_refresh golang_template.Session.Claims.claim_string
    golang_template.Session.Claims.must_claim golang_template.Session.Blocklist.exists
banned_token_spares_sessions_example =
    banned_token_spares_sessions module_of draws (ok "k") "k" (claims_of "k") 11 7 renewed.db banned
      refl refl refl refl refl refl

abbrev principal : Principal
principal = record { id = 7; token_version = 0; access_jti = "a"; access_exp = pos 300 }

logout_all_ends_sessions_example :
    AllEnded 7
      (logout_all module_of draws
        (some principal)
        (record { db = start; blocklist = some cache })).1.db.tables.refresh_tokens
unfolding logout_all golang_template.Session.Steps.◌>>=◌ golang_template.Session.Steps.on_db
    golang_template.Session.Steps.or_refuse golang_template.Session.revoke_all_for_user
    golang_template.Storage.statement golang_template.Session.increment_token_version
    golang_template.Session.user_by golang_template.Session.Steps.on_blocklist
logout_all_ends_sessions_example =
    logout_all_ends_sessions module_of draws principal
      (record { db = start; blocklist = some cache }) refl

abbrev spent_session : RefreshSession
spent_session = record (session_of 1 11) { revoked_at = some 90; replaced_by = some 2 }

abbrev spent_tables : Tables
spent_tables = record { users = user_7 ∷ []; refresh_tokens = spent_session ∷ session_of 2 22 ∷ [] }

reuse_ends_all_sessions_example :
    ((refresh_token module_of draws (ok "k") (calm spent_tables)).0
      ≡ stop (refused 401 (message "refresh token reuse detected")))
    × AllEnded 7
        (refresh_token module_of draws (ok "k") (calm spent_tables)).1.db.tables.refresh_tokens
    × ((refresh_token module_of draws (ok "k") (calm spent_tables)).1.db.tables.users
        ≡ bump_version 7 (user_7 ∷ []))
unfolding golang_template.Session.Claims.parse_refresh golang_template.Session.Claims.claim_string
    golang_template.Session.Claims.must_claim golang_template.Session.user_by
    golang_template.Session.Claims.claim_int golang_template.Session.session_by
reuse_ends_all_sessions_example =
    reuse_ends_all_sessions module_of draws (ok "k") "k" (claims_of "k") 11 7 90 user_7
      spent_session spent_tables refl refl refl refl refl refl refl refl
