-- ===== src/Session/Laws/Once.antt =====
-- Sequences of calls on the stores around a renewal, for internal/modules/user/refresh_store.go.
use golang_template.Prelude.{
  ℕ, ◌≡◌, ◌≢◌, refl, Bool, true, false, if◌then◌else◌, List, [], ◌∷◌, Option, none, some, arith,
}
use golang_template.Errors.{Err, ok, err}
use golang_template.Storage.{Db, Action, raise}
use golang_template.Storage.Yields.{Yields, Yields-statement, Yields-with_tx, Yields-bind}
use golang_template.Outbox.Claim.{is_null}
use golang_template.Session.{
  RefreshSession, Tables, session_by, insert, select_revoked, revoked_of, refuse_revoked,
  replace_session, rotate, revoke, revoke_all_for_user, increment_token_version,
}
use golang_template.Session.Laws.Spent.{
  is_revoked, IsSpent, revoke_where-spends, rotate-IsSpent, insert-IsSpent, revoke-IsSpent,
  revoke_all-IsSpent, increment-IsSpent,
}

anything : {A : Type 0} {m : Action Tables A} → Yields (λ t. Unit) m (λ a t. Unit)
anything = record { at = λ db a p h. tt }

-- A call on the stores, with its arguments and draws.
pub data Call : Type 0 where
  inserted : (id user_id jti expires_at : ℕ) → Call
  rotated : (new_id now old_jti new_jti user_id expires_at : ℕ) → Call
  revoked : (now jti : ℕ) → Call
  revoked_all : (now user_id : ℕ) → Call
  incremented : (user_id : ℕ) → Call

abbrev pub after_call : Call → Db Tables → Db Tables
after_call (inserted id user_id jti expires_at) db = (insert id user_id jti expires_at db).1
after_call (rotated new_id now old new user_id expires_at) db =
    (rotate new_id now old new user_id expires_at db).1
after_call (revoked now jti) db = (revoke now jti db).1
after_call (revoked_all now user_id) db = (revoke_all_for_user now user_id db).1
after_call (incremented user_id) db = (increment_token_version user_id db).1

abbrev pub after_calls : List Call → Db Tables → Db Tables
after_calls [] db = db
after_calls (c ∷ cs) db = after_calls cs (after_call c db)

after_call-IsSpent :
    (jti : ℕ) (c : Call) (db : Db Tables)
    → IsSpent jti db.tables
    → IsSpent jti (after_call c db).tables
after_call-IsSpent jti (inserted id user_id new expires_at) db h =
    (insert-IsSpent jti id user_id new expires_at).at db h
after_call-IsSpent jti (rotated new_id now old new user_id expires_at) db h =
    (rotate-IsSpent jti new_id now old new user_id expires_at).at db h
after_call-IsSpent jti (revoked now old) db h = (revoke-IsSpent jti now old).at db h
after_call-IsSpent jti (revoked_all now user_id) db h = (revoke_all-IsSpent jti now user_id).at db h
after_call-IsSpent jti (incremented user_id) db h = (increment-IsSpent jti user_id).at db h

after_calls-IsSpent :
    (jti : ℕ) (cs : List Call) (db : Db Tables)
    → IsSpent jti db.tables
    → IsSpent jti (after_calls cs db).tables
after_calls-IsSpent jti [] db h = h
after_calls-IsSpent jti (c ∷ cs) db h =
    after_calls-IsSpent jti cs (after_call c db) (after_call-IsSpent jti c db h)

ok_if : (b : Bool) (e : Err) {a : Unit {0}} → (if b then ok tt else err e) ≡ ok a → b ≡ true
ok_if true e h = refl
ok_if false e h = cc

spent_of :
    (o : Option RefreshSession) {r : Option ℕ}
    → is_revoked o ≡ true
    → revoked_of o ≡ ok r
    → is_null r ≡ false
spent_of none spent h = ground arith
spent_of (some s) spent h = ground arith

refuses : (r : Option ℕ) → Yields (λ t. is_null r ≡ false) (refuse_revoked r) (λ a t. ⊥)
unfolding raise
refuses none = record { at = λ db a p h. cc }
refuses (some at) = record { at = λ db a p h. cc }

module _ (new_id now old new user_id expires_at : ℕ) where
  -- A rotation that returns no error leaves the old token spent.
  rotate-spends :
      Yields (λ t. Unit) (rotate new_id now old new user_id expires_at) (λ a t. IsSpent old t)
  unfolding rotate
  rotate-spends = Yields-with_tx _ (
      Yields-bind (λ r t. Unit) _ _ anything
        (λ r.
          Yields-bind (λ a t. Unit) _ _ anything
            (λ a.
              Yields-bind (λ id t. Unit) _ _ anything
                (λ id. Yields-statement (replace_session old id now) (λ t a p h.
                  revoke_where-spends old now (λ s. some id) t.refresh_tokens (ok_if _ _ h))))))

  -- A rotation of a spent token returns an error.
  rotate-refuses : Yields (IsSpent old) (rotate new_id now old new user_id expires_at) (λ a t. ⊥)
  unfolding rotate
  rotate-refuses = Yields-with_tx _ (
      Yields-bind (λ r t. is_null r ≡ false) _ _
        (Yields-statement (select_revoked old)
          (λ t r spent h. spent_of (session_by old t.refresh_tokens) spent h))
        (λ r. Yields-bind (λ a t. ⊥) _ _ (refuses r) (λ a. record { at = λ db b p h. p })))

-- Once a refresh token was renewed, no later renewal of it returns without an error, after
-- whatever calls on the stores and whatever faults.
pub renewed_at_most_once :
    (new_id now old new user_id expires_at : ℕ) (db : Db Tables) (a : Unit {0})
    → (rotate new_id now old new user_id expires_at db).0 ≡ ok a
    → (calls : List Call) (new_id' now' new' user_id' expires_at' : ℕ) (b : Unit {0})
    → (rotate new_id' now' old new' user_id' expires_at'
        (after_calls calls (rotate new_id now old new user_id expires_at db).1)).0
      ≢ ok b
renewed_at_most_once new_id now old new user_id expires_at db a done calls new_id' now' new'
      user_id' expires_at' b =
    λ h.
      (rotate-refuses new_id' now' old new' user_id' expires_at').at _ b
        (after_calls-IsSpent old calls _
          ((rotate-spends new_id now old new user_id expires_at).at db a tt done))
        h
