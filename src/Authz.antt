-- ===== src/Authz.antt =====
-- internal/platform/authz/authz.go: the guard of the HTTP handlers.
--
-- A handler's context carries the principal that the guard found. The stores of users and roles
-- are parameters that may fail, and the blocklist is the one of internal/platform/authn. A
-- `uuid.UUID` is a number with `uuid.Nil` as 0. A handler below the guard is what it passes to.
pub mod Laws
pub mod Tests
use Prim.Native.Char.{Char, code}
use Prim.Native.String
use golang_template.Prelude.{
  ℕ, String, ◌==◌, ◌≡◌, refl, Bool, true, false, ◌&&◌, ◌||◌, not, eqb, leb, ◌+◌, if◌then◌else◌,
  Option, none, some,
}
use golang_template.Prelude.Int.{ℤ, pos, ltb_ℤ}
use golang_template.Errors.{Err, sentinel, forbidden, message, Result, ok, err}
use golang_template.Session.Claims.{
  Claim, text, number, null, other, Claims, claim_string, claim_int, or_empty, type_access,
}
use golang_template.Session.Blocklist.{Blocklist, blocked}

pub record Principal : Type 0 where
  pub id : ℕ
  pub role_name : String
  pub role_level : ℤ
  pub token_ver : ℤ
  pub access_jti : String
  pub access_exp : ℤ

-- `Guard`, without the responder; `parse_uuid` is `uuid.Parse`.
pub record Guard : Type 0 where
  pub validate_token : String → Result Claims
  pub parse_uuid : String → Result ℕ
  pub by_id : ℕ → Result Principal
  pub level_of : String → Result ℤ
  pub required : Bool
  pub rbac_enabled : Bool
  pub dev_token : String
  pub dev_user_id : ℕ
  pub allow_dev : Bool

-- `NewGuard`
unfoldable pub new_guard :
    (String → Result Claims)
    → (String → Result ℕ)
    → (ℕ → Result Principal)
    → (String → Result ℤ)
    → Guard
new_guard validate_token parse_uuid by_id level_of = record {
  validate_token = validate_token;
  parse_uuid = parse_uuid;
  by_id = by_id;
  level_of = level_of;
  required = true;
  rbac_enabled = true;
  dev_token = "";
  dev_user_id = 0;
  allow_dev = false;
}

-- What the guard does with a request: it passes it on with a principal, or answers.
pub data Answer : Type 0 where
  passed : Principal → Answer
  unauthorized : Err → Answer

-- `devPrincipal`
unfoldable pub dev_principal : Guard → Result Principal
dev_principal g =
    if not (eqb g.dev_user_id 0)
    then g.by_id g.dev_user_id
    else if not g.required
    then err (message "auth disabled: set AUTH_DEV_USER_ID to a real user uuid")
    else err (message "dev token configured but AUTH_DEV_USER_ID is empty")

abbrev pub answer_of : Result Principal → Answer
answer_of (ok p) = passed p
answer_of (err e) = unauthorized e

-- A claimed version that is not the principal's.
abbrev pub outdated : Option ℤ → ℤ → Bool
outdated none v = false
outdated (some n) v = ltb_ℤ n v || ltb_ℤ v n

abbrev expiry : Option Claim → ℤ → ℤ
expiry (some (number n)) old = n
expiry _ old = old

abbrev pub with_principal : Claims → String → Result Principal → Answer
with_principal claims jti (err e) = unauthorized e
with_principal claims jti (ok p) =
    if outdated (claim_int claims "ver") p.token_ver
    then unauthorized (message "token revoked")
    else passed (record p { access_jti = jti; access_exp = expiry (claims "exp") p.access_exp })

abbrev pub with_user : Guard → Claims → String → Result ℕ → Answer
with_user g claims jti (err e) = unauthorized e
with_user g claims jti (ok user_id) = with_principal claims jti (g.by_id user_id)

-- A blocklist that fails lets the token pass.
abbrev pub after_blocklist :
    Guard → Claims → String → String → Result Bool × Blocklist → Answer × Blocklist
after_blocklist g claims sub jti (ok true, b) = (unauthorized (message "token revoked"), b)
after_blocklist g claims sub jti (_, b) = (with_user g claims jti (g.parse_uuid sub), b)

abbrev pub with_subject : Guard → ℕ → Claims → Option String → Blocklist → Answer × Blocklist
with_subject g now claims none b = (unauthorized (message "invalid subject claim"), b)
with_subject g now claims (some sub) b =
    let jti = or_empty (claim_string claims "jti") in
    after_blocklist g claims sub jti (blocked now jti b)

abbrev pub with_claims : Guard → ℕ → Result Claims → Blocklist → Answer × Blocklist
with_claims g now (err e) b = (unauthorized e, b)
with_claims g now (ok claims) b =
    if not (or_empty (claim_string claims "typ") == type_access)
    then (unauthorized (message "access token required"), b)
    else with_subject g now claims (claim_string claims "sub") b

-- `AuthToken` for a bearer token, which is empty where there is none.
unfoldable pub auth_token : Guard → ℕ → String → Blocklist → Answer × Blocklist
auth_token g now token b =
    if g.allow_dev && not (g.dev_token == "") && token == g.dev_token
    then (answer_of (dev_principal g), b)
    else if token == ""
    then (
      if not g.required
          then answer_of (dev_principal g)
          else unauthorized (message "authorization header is missing"),
      b,
    )
    else with_claims g now (g.validate_token token) b

abbrev pub judge_level : Principal → Result ℤ → Option Err
judge_level p (err e) = some e
judge_level p (ok level) = if ltb_ℤ p.role_level level then some (sentinel forbidden) else none

-- `Allows` of a guard that is not nil: no error, or why the principal may not act.
abbrev pub allows_principal : Guard → String → ℕ → Option Principal → Option Err
allows_principal g role owner none = some (message "missing principal")
allows_principal g role owner (some p) =
    if not (eqb owner 0) && eqb owner p.id then none else judge_level p (g.level_of role)

unfoldable pub allows : Guard → Option Principal → String → ℕ → Option Err
allows g principal role owner =
    if not g.rbac_enabled then none else allows_principal g role owner principal

-- What `OwnershipOrRole` answers.
pub data Access : Type 0 where
  granted : Access
  denied : (status : ℕ) → Access

abbrev pub access_by_level : Principal → Result ℤ → Access
access_by_level p (err e) = denied 500
access_by_level p (ok level) = if ltb_ℤ p.role_level level then denied 403 else granted

abbrev pub access_of : Guard → String → ℕ → Option Principal → Access
access_of g role owner none = denied 401
access_of g role owner (some p) =
    if eqb owner p.id then granted else access_by_level p (g.level_of role)

unfoldable pub ownership_or_role : Guard → String → ℕ → Option Principal → Access
ownership_or_role g role owner principal =
    if not g.rbac_enabled then granted else access_of g role owner principal

-- `strings.SplitN(header, " ", 2)`, where it gives two parts.
abbrev led : Char → Option (String × String) → Option (String × String)
led c none = none
led c (some (scheme, token)) = some (String.◌∷◌ c scheme, token)

unfoldable pub split_space : String → Option (String × String)
split_space String.[] = none
split_space (String.◌∷◌ c s) =
    let rest = split_space s in if eqb (code c) b' ' then some ("", s) else led c rest

-- `strings.EqualFold` with a text of ASCII letters other than k and s.
abbrev lower : ℕ → ℕ
lower c = if leb b'A' c && leb c b'Z' then c + 32 else c

unfoldable pub equal_fold : String → String → Bool
equal_fold String.[] String.[] = true
equal_fold (String.◌∷◌ c s) (String.◌∷◌ d t) =
    eqb (lower (code c)) (lower (code d)) && equal_fold s t
equal_fold String.[] (String.◌∷◌ d t) = false
equal_fold (String.◌∷◌ c s) String.[] = false

abbrev token_of : Option (String × String) → String
token_of none = ""
token_of (some (scheme, token)) = if equal_fold scheme "Bearer" then token else ""

-- `bearerToken`, of the header's value.
unfoldable pub bearer_token : String → String
bearer_token header = token_of (split_space header)

bearer_test : bearer_token "bEARER a b" ≡ "a b"
unfolding bearer_token split_space equal_fold
bearer_test = refl
