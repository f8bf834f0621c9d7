-- ===== src/Audit.antt =====
-- internal/platform/audit: the log of what the handlers changed. An entry is written after the
-- change, outside its transaction, and a failure to write it is only logged.
use golang_template.Prelude.{
  ℕ, eqb, String, Bool, true, false, ◌==◌, if◌then◌else◌, List, ◌∷◌, Option, none, some, any,
}
use golang_template.Errors.{pg_error, Result, ok, err}
use golang_template.Storage.{Action, Db, statement, raise}
use golang_template.Authz.{Principal}

pub record Entry : Type 0 where
  pub actor_id : Option ℕ
  pub action : String
  pub resource_type : String
  pub resource_id : String
  pub request_id : String
  pub ip : String

-- A row of `audit_logs`; the columns that may be null are options.
pub record Row : Type 0 where
  pub actor_id : Option ℕ
  pub action : String
  pub resource_type : String
  pub resource_id : String
  pub request_id : Option String
  pub ip : Option String
  pub meta : String

abbrev pub null_if_empty : String → Option String
null_if_empty s = if s == "" then none else some s

abbrev pub to_row : Entry → String → Row
to_row e meta = record {
  actor_id = e.actor_id;
  action = e.action;
  resource_type = e.resource_type;
  resource_id = e.resource_id;
  request_id = null_if_empty e.request_id;
  ip = null_if_empty e.ip;
  meta = meta;
}

-- The reference to `users` holds where the actor is null or a user.
abbrev pub is_user_or_null : List ℕ → Option ℕ → Bool
is_user_or_null users none = true
is_user_or_null users (some id) = any (λ u. eqb u id) users

abbrev pub insert_row : List ℕ → Row → List Row → Result (Unit {0}) × List Row
insert_row users r rows =
    if is_user_or_null users r.actor_id
    then (ok tt, r ∷ rows)
    else (err (pg_error "23503" "audit_logs_actor_id_fkey"), rows)

-- `Store.Log`, over what `json.Marshal` of the metadata returns.
unfoldable pub log : List ℕ → Entry → Result String → Action (List Row) (Unit {0})
log users e (err x) = raise x
log users e (ok meta) = statement (insert_row users (to_row e meta))

abbrev pub actor_of : Option Principal → Option ℕ
actor_of none = none
actor_of (some p) = some p.id

pub record Request : Type 0 where
  pub principal : Option Principal
  pub request_id : String
  pub remote_addr : String

abbrev pub new_entry : Request → String → String → String → Entry
new_entry r action resource_type resource_id = record {
  actor_id = actor_of r.principal;
  action = action;
  resource_type = resource_type;
  resource_id = resource_id;
  request_id = r.request_id;
  ip = r.remote_addr;
}

abbrev pub state_left {ℓ} : {S A : Type ℓ} → Result A × Db S → Db S
state_left (r, db) = db

-- `Record` with a store, or with `Nop`, which does nothing.
unfoldable pub write :
    Bool
    → List ℕ
    → Request
    → String
    → String
    → String
    → Result String
    → Db (List Row)
    → Db (List Row)
write false users r action resource_type resource_id meta db = db
write true users r action resource_type resource_id meta db =
    state_left (log users (new_entry r action resource_type resource_id) meta db)
