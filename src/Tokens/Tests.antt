-- ===== src/Tokens/Tests.antt =====
-- A token that verifies an address.
use golang_template.Prelude.{arith, ◌≢◌, refl, List, [], ◌∷◌, none, some}
use golang_template.Errors.{ok}
use golang_template.Storage.{Db}
use golang_template.Tokens.{UserToken, consume}
use golang_template.Tokens.Laws.{consumed_at_most_once}

abbrev token : UserToken
token = record {
  id = 1;
  user_id = 7;
  token_hash = "h";
  purpose = "email_verify";
  expires_at = 500;
  used_at = none;
}

abbrev start : Db (List UserToken)
start = record { tables = token ∷ []; faults = [] }

consumed_at_most_once_example :
    (consume
      (λ p. "h")
      110
      "plain"
      "email_verify"
      (consume (λ p. "h") 100 "plain" "email_verify" start).1).0
    ≢ ok token
unfolding consume golang_template.Storage.statement golang_template.Tokens.first_used
consumed_at_most_once_example =
    consumed_at_most_once (λ p. "h") 100 110 "plain" "email_verify" start
      (record token { used_at = some 100 }) token refl (omega arith)
