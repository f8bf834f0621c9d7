-- ===== src/Authz/Tests.antt =====
-- The guard with one user of role level 2.
use golang_template.Prelude.{arith, ◌==◌, ◌≡◌, ◌↔◌, refl, [], ◌∷◌, none, some, if◌then◌else◌}
use golang_template.Prelude.Int.{pos}
use golang_template.Errors.{ok}
use golang_template.Session.Claims.{Claim, text, number, Claims}
use golang_template.Session.Blocklist.{Blocklist}
use golang_template.Authz.{
  Principal, Guard, new_guard, auth_token, allows, ownership_or_role, granted,
}
use golang_template.Authz.Laws.{Authenticated, passed_is_Authenticated, ownership_or_role-allows}

abbrev user : Principal
user = record {
  id = 7;
  role_name = "editor";
  role_level = pos 2;
  token_ver = pos 0;
  access_jti = "";
  access_exp = pos 0;
}

abbrev claims : Claims
claims key =
    if key == "typ"
    then some (text "access")
    else if key == "sub"
    then some (text "u")
    else if key == "jti"
    then some (text "j")
    else if key == "ver"
    then some (number (pos 0))
    else if key == "exp"
    then some (number (pos 300))
    else none

abbrev guard : Guard
guard = record (new_guard (λ raw. ok claims) (λ s. ok 7) (λ id. ok user) (λ role. ok (pos 3))) {
  dev_token = "dev";
}

abbrev banned : Blocklist
banned = some (record { tables = ("auth:bl:other", 500) ∷ []; faults = [] })

abbrev with_claims : Principal
with_claims = record user { access_jti = "j"; access_exp = pos 300 }

passed_is_Authenticated_example : Authenticated guard 100 "signed" banned with_claims
unfolding auth_token golang_template.Session.Claims.claim_string
    golang_template.Session.Blocklist.blocked golang_template.Storage.statement
    golang_template.Session.Blocklist.exists golang_template.Session.Claims.claim_int new_guard
passed_is_Authenticated_example =
    passed_is_Authenticated guard 100 "signed" banned with_claims refl refl refl

ownership_or_role-allows_example :
    (ownership_or_role guard "admin" 8 (some user) ≡ granted)
    ↔ (allows guard (some user) "admin" 8 ≡ none)
ownership_or_role-allows_example =
    ownership_or_role-allows guard "admin" 8 (some user) (omega arith)
