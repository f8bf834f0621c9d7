-- ===== src/Session/Laws/Reuse.antt =====
-- What a refresh with a token of the past does: with the blocklist, and without it.
use golang_template.Prelude.{
  ℕ, ◌≡◌, ◌≢◌, refl, String, ◌==◌, Bool, true, false, ◌<>◌, List, Option, none, some,
}
use golang_template.Errors.{message, Result, ok, err}
use golang_template.Storage.{Db, Fault, lost, applied, statement, settle, next_fault, later_faults}
use golang_template.Session.{Tables}
use golang_template.Session.Claims.{Claims, must_claim, parse_refresh}
use golang_template.Session.Blocklist.{Blocklist, Cache, blocked, exists, block_prefix, kept}
use golang_template.Session.Steps.{
  World, Draws, Module, Reply, Step, next, ◌>>=◌, or_refuse, on_blocklist, left_blocklist,
  refuse_if,
}
use golang_template.Session.Handlers.{refresh_token}

settle-true :
    (f : Option Fault) (rest : List (Option Fault)) (c : Cache) (b : Bool)
    → b ≡ true
    → (kept (settle f rest c (ok b, c))).0 ≢ ok false
settle-true none rest c b yes_b = λ h. cc
settle-true (some (lost e)) rest c b yes_b = λ h. cc
settle-true (some (applied e)) rest c b yes_b = λ h. cc

-- A banned token is never found free of a ban.
blocked-banned :
    (now : ℕ) (jti : String) (db : Db Cache)
    → (jti == "") ≡ false
    → exists now (block_prefix <> jti) db.tables ≡ true
    → (blocked now jti (some db)).0 ≢ ok false
unfolding blocked statement
blocked-banned now jti db named banned =
    rw named (settle-true (next_fault db.faults) (later_faults db.faults) db.tables _ banned)

stopped :
    (k : Unit {0} → Step Reply) (w : World) (a : Result Bool × Blocklist)
    → a.0 ≢ ok false
    → (next
        (λ banned.
          or_refuse 500 banned >>= λ b. refuse_if b 401 (message "refresh token revoked") >>= k)
        (left_blocklist w a)).1.db
      ≡ w.db
unfolding ◌>>=◌ or_refuse refuse_if
stopped k w (ok true, b) h = refl
stopped k w (ok false, b) h = absurd (h refl)
stopped k w (err e, b) h = refl

-- A refresh with a token that is on the blocklist changes nothing in the database, whatever the
-- state of the token's session: no session is revoked, and no version counted up.
pub banned_token_spares_sessions :
    (m : Module) (d : Draws) (payload : Result String) (raw : String) (claims : Claims)
    (jti user_id : ℕ) (db : Db Tables) (c : Db Cache)
    → payload ≡ ok raw
    → parse_refresh m.codec raw ≡ ok claims
    → m.codec.parse_uuid (must_claim claims "jti") ≡ ok jti
    → m.codec.parse_uuid (must_claim claims "sub") ≡ ok user_id
    → (m.codec.show_uuid jti == "") ≡ false
    → exists d.now (block_prefix <> m.codec.show_uuid jti) c.tables ≡ true
    → (refresh_token m d payload (record { db = db; blocklist = some c })).1.db ≡ db
unfolding refresh_token ◌>>=◌ or_refuse on_blocklist
banned_token_spares_sessions m d payload raw claims jti user_id db c at_raw at_claims at_jti at_sub
      named banned =
    rw at_raw (
      rw at_claims (
        rw at_jti (
          rw at_sub (
            stopped _ (record { db = db; blocklist = some c }) _
              (blocked-banned d.now (m.codec.show_uuid jti) c named banned)))))
