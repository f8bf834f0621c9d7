-- ===== src/Session/Handlers.antt =====
-- The handlers of internal/modules/user/auth.go: login, refresh, logout, logout of all sessions,
-- and the user's own profile.
--
-- A failed write of the answer, which is answered 500 on a connection that is gone, is left out.
use golang_template.Prelude.{
  ℕ, ◌+◌, String, ◌==◌, Bool, true, false, eqb, not, if◌then◌else◌, Option, none, some,
}
use golang_template.Prelude.Int.{ℤ, pos, negsuc}
use golang_template.Errors.{Err, is, not_found, refresh_reuse, message, Result, ok, err}
use golang_template.Session.{
  User, get_by_id, get_by_email, rotate, insert, revoke, revoke_all_for_user,
  increment_token_version,
}
use golang_template.Session.Claims.{
  text, number, Claims, claim_int, must_claim, int64_from_exp, parse_refresh, type_access,
  type_refresh,
}
use golang_template.Session.Blocklist.{ban, blocked}
use golang_template.Session.Steps.{
  Draws, Module, TokenResponse, Reply, issued, profile, no_content, Step, ◌>>=◌, refuse, give,
  or_refuse, on_db, on_blocklist, refuse_if, reply,
}

-- The claims of a new token.
abbrev pub token_claims : Module → User → ℕ → String → ℕ → ℕ → Claims
token_claims m u now typ jti exp key =
    if key == "sub"
    then some (text (m.codec.show_uuid u.id))
    else if key == "jti"
    then some (text (m.codec.show_uuid jti))
    else if key == "typ"
    then some (text typ)
    else if key == "ver"
    then some (number (pos u.token_version))
    else if key == "exp"
    then some (number (pos exp))
    else if key == "iat"
    then some (number (pos now))
    else if key == "nbf"
    then some (number (pos now))
    else if key == "iss"
    then some (text m.token_iss)
    else if key == "aud"
    then some (text m.token_aud)
    else none

abbrev pub response : Module → String → Result String → Result TokenResponse
response m access (err e) = err e
response m access (ok refresh) = ok (record {
  access_token = access;
  refresh_token = refresh;
  token_type = "Bearer";
  expires_in = m.token_exp;
})

abbrev pub with_access : Module → Result String → Result String → Result TokenResponse
with_access m (err e) refresh = err e
with_access m (ok access) refresh = response m access refresh

-- `issuePairWithRefreshJTI`
unfoldable pub issue_pair_with_refresh_jti : Module → Draws → User → ℕ → ℕ → Result TokenResponse
issue_pair_with_refresh_jti m d u jti refresh_exp =
    with_access m
      (m.codec.generate_token
        (token_claims m u d.now type_access d.access_jti (d.now + m.token_exp)))
      (m.codec.generate_token (token_claims m u d.now type_refresh jti refresh_exp))

-- A claimed version that is not the user's.
abbrev pub other_version : Option ℤ → ℕ → Bool
other_version none v = false
other_version (some (pos n)) v = not (eqb n v)
other_version (some (negsuc n)) v = true

-- What `Users.GetByEmail` gives for the login: 401 where there is no such user.
abbrev pub login_status : Err → ℕ
login_status e = if is e not_found then 401 else 500

unfoldable pub or_login_refused : Result User → Step User
or_login_refused (ok u) = give u
or_login_refused (err e) = refuse (login_status e) e

module _ (m : Module) (d : Draws) where
  -- `createTokenHandler`, with the payload's email and password. `compare` is bcrypt's.
  unfoldable pub create_token :
      (same_email : String → String → Bool) (compare : String → String → Result (Unit {0}))
      → Result (String × String)
      → Step Reply
  create_token same_email compare payload = do
    (email, password) ← or_refuse 400 payload
    found ← on_db (get_by_email same_email email)
    u ← or_login_refused found
    _ ← or_refuse 401 (compare u.password_hash password)
    _ ← refuse_if (not u.is_active) 403 (message "email not verified")
    inserted ← on_db (insert d.new_id u.id d.new_jti (d.now + m.refresh_exp))
    _ ← or_refuse 500 inserted
    pair ← or_refuse 500 (issue_pair_with_refresh_jti m d u d.new_jti (d.now + m.refresh_exp))
    reply (issued 201 pair)

  -- The errors of `Rotate`: a token used again ends every session of its user.
  unfoldable pub after_rotate : ℕ → Result (Unit {0}) → Step (Unit {0})
  after_rotate user_id (ok a) = give tt
  after_rotate user_id (err e) =
      if is e refresh_reuse
      then (do
        _ ← on_db (revoke_all_for_user d.db_now user_id)
        _ ← on_db (increment_token_version user_id)
        refuse 401 (message "refresh token reuse detected"))
      else refuse (if is e not_found then 401 else 500) e

  -- `refreshTokenHandler` after the payload's checks.
  unfoldable pub refresh_token : Result String → Step Reply
  refresh_token payload = do
    raw ← or_refuse 400 payload
    claims ← or_refuse 401 (parse_refresh m.codec raw)
    jti ← or_refuse 401 (m.codec.parse_uuid (must_claim claims "jti"))
    user_id ← or_refuse 401 (m.codec.parse_uuid (must_claim claims "sub"))
    banned ← on_blocklist (blocked d.now (m.codec.show_uuid jti))
    b ← or_refuse 500 banned
    _ ← refuse_if b 401 (message "refresh token revoked")
    found ← on_db (get_by_id user_id)
    u ← or_refuse 401 found
    _ ←
        refuse_if (other_version (claim_int claims "ver") u.token_version) 401
          (message "refresh token revoked")
    rotated ← on_db (rotate d.new_id d.db_now jti d.new_jti user_id (d.now + m.refresh_exp))
    _ ← after_rotate user_id rotated
    _ ← on_blocklist (ban d.now (m.codec.show_uuid jti) (int64_from_exp d.now claims))
    pair ← or_refuse 500 (issue_pair_with_refresh_jti m d u d.new_jti (d.now + m.refresh_exp))
    reply (issued 200 pair)

-- `authz.Principal`, as the handlers read it.
pub record Principal : Type 0 where
  pub id : ℕ
  pub token_version : ℕ
  pub access_jti : String
  pub access_exp : ℤ

abbrev pub principal_or_refuse : Option Principal → Step Principal
principal_or_refuse none = refuse 401 (message "unauthorized")
principal_or_refuse (some p) = give p

module _ (m : Module) (d : Draws) where
  -- `logoutHandler` after the payload's checks. `Ban` passes over an empty identifier.
  unfoldable pub logout : Result String → Option Principal → Step Reply
  logout payload principal = do
    raw ← or_refuse 400 payload
    p ← principal_or_refuse principal
    claims ← or_refuse 401 (parse_refresh m.codec raw)
    _ ←
        refuse_if (not (must_claim claims "sub" == m.codec.show_uuid p.id)) 401
          (message "refresh token does not match user")
    jti ← or_refuse 401 (m.codec.parse_uuid (must_claim claims "jti"))
    revoked ← on_db (revoke d.db_now jti)
    _ ← or_refuse 500 revoked
    _ ← on_blocklist (ban d.now (m.codec.show_uuid jti) (int64_from_exp d.now claims))
    _ ← on_blocklist (ban d.now p.access_jti p.access_exp)
    reply no_content

  -- `logoutAllHandler`
  unfoldable pub logout_all : Option Principal → Step Reply
  logout_all principal = do
    p ← principal_or_refuse principal
    revoked ← on_db (revoke_all_for_user d.db_now p.id)
    _ ← or_refuse 500 revoked
    bumped ← on_db (increment_token_version p.id)
    _ ← or_refuse 500 bumped
    _ ← on_blocklist (ban d.now p.access_jti p.access_exp)
    reply no_content

-- `meHandler`: the errors of `GetByID` are answered like those of `GetByEmail` at the login.
unfoldable pub me : Option Principal → Step Reply
me principal = do
  p ← principal_or_refuse principal
  found ← on_db (get_by_id p.id)
  u ← or_login_refused found
  reply (profile u)
