-- ===== src/Session/Claims.antt =====
-- internal/platform/authn/claims.go, and the readers of claims in internal/modules/user/auth.go.
--
-- A claim set is a function on keys, as `jwt.MapClaims` is a map; a number stands for the float64,
-- int or int64 that the source converts. The signature checks of `ValidateToken` are the JWT
-- library's: a `Codec` gives its answer.
use golang_template.Prelude.{ℕ, ◌+◌, String, ◌==◌, if◌then◌else◌, Option, none, some, not}
use golang_template.Prelude.Int.{ℤ, pos}
use golang_template.Errors.{message, Result, ok, err}

pub data Claim : Type 0 where
  null : Claim
  text : String → Claim
  number : ℤ → Claim
  other : Claim

abbrev pub Claims : Type 0
Claims = String → Option Claim

-- `Authenticator`, and `uuid.Parse` and `UUID.String`.
pub record Codec : Type 0 where
  pub validate_token : String → Result Claims
  pub generate_token : Claims → Result String
  pub parse_uuid : String → Result ℕ
  pub show_uuid : ℕ → String

abbrev text_of : Option Claim → Option String
text_of (some (text s)) = if s == "" then none else some s
text_of _ = none

-- `ClaimString`, and `ClaimInt` below: no value where the source returns false.
unfoldable pub claim_string : Claims → String → Option String
claim_string claims key = text_of (claims key)

abbrev number_of : Option Claim → Option ℤ
number_of (some (number n)) = some n
number_of _ = none

unfoldable pub claim_int : Claims → String → Option ℤ
claim_int claims key = number_of (claims key)

abbrev pub or_empty : Option String → String
or_empty none = ""
or_empty (some s) = s

-- `mustClaim`
unfoldable pub must_claim : Claims → String → String
must_claim claims key = or_empty (claim_string claims key)

abbrev or_else : ℤ → Option Claim → ℤ
or_else d (some (number n)) = n
or_else d _ = d

-- `int64FromExp`: an hour from now where the claim is no number. Seconds.
unfoldable pub int64_from_exp : ℕ → Claims → ℤ
int64_from_exp now claims = or_else (pos (now + 3600)) (claims "exp")

abbrev pub type_access : String
type_access = "access"

abbrev pub type_refresh : String
type_refresh = "refresh"

abbrev pub has_jti_claim : Claims → Option String → Result Claims
has_jti_claim claims none = err (message "missing jti")
has_jti_claim claims (some jti) = ok claims

abbrev pub refresh_claims : Result Claims → Result Claims
refresh_claims (err e) = err e
refresh_claims (ok claims) =
    if not (or_empty (claim_string claims "typ") == type_refresh)
    then err (message "not a refresh token")
    else has_jti_claim claims (claim_string claims "jti")

-- `parseRefresh`
unfoldable pub parse_refresh : Codec → String → Result Claims
parse_refresh codec raw = refresh_claims (codec.validate_token raw)
