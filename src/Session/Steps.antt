-- ===== src/Session/Steps.antt =====
-- The steps that the handlers of internal/modules/user/auth.go are made of.
--
-- A handler is a chain of steps that may each answer the request and stop. The clocks are read
-- once for each request (`Draws`), which also gives the fresh numbers: of the new refresh token,
-- of its row, and of the new access token. `ReadJSON` and the checks of the payload come before,
-- and give the payload or an error. The body of `WriteHeader` and `JSONResponse` is `Reply`.
use golang_template.Prelude.{ℕ, String, Bool, true, false}
use golang_template.Errors.{Err, Result, ok, err}
use golang_template.Storage.{Action, Db}
use golang_template.Session.{Tables, User}
use golang_template.Session.Claims.{Codec}
use golang_template.Session.Blocklist.{Blocklist}

pub record World : Type 0 where
  pub db : Db Tables
  pub blocklist : Blocklist

pub record Draws : Type 0 where
  pub now : ℕ
  pub db_now : ℕ
  pub new_jti : ℕ
  pub new_id : ℕ
  pub access_jti : ℕ

-- The module's settings and the codecs. Durations are seconds.
pub record Module : Type 0 where
  pub codec : Codec
  pub token_exp : ℕ
  pub refresh_exp : ℕ
  pub token_iss : String
  pub token_aud : String

pub record TokenResponse : Type 0 where
  pub access_token : String
  pub refresh_token : String
  pub token_type : String
  pub expires_in : ℕ

pub data Reply : Type 0 where
  issued : (status : ℕ) → TokenResponse → Reply
  no_content : Reply
  profile : User → Reply
  refused : (status : ℕ) → Err → Reply

-- What a step gives: a value to go on with, or the request's answer.
pub data Answer (A : Type 0) : Type 0 where
  go : A → Answer A
  stop : Reply → Answer A

abbrev pub Step : Type 0 → Type 0
Step A = World → Answer A × World

module _ {A B : Type 0} where
  abbrev pub next : (A → Step B) → Answer A × World → Answer B × World
  next k (go a, w) = k a w
  next k (stop r, w) = (stop r, w)

  infixl 10 ◌>>=◌
  unfoldable pub ◌>>=◌ : Step A → (A → Step B) → Step B
  m >>= k = λ w. next k (m w)

module _ {A : Type 0} where
  abbrev pub refuse : ℕ → Err → Step A
  refuse status e w = (stop (refused status e), w)

  abbrev pub give : A → Step A
  give a w = (go a, w)

  -- Go on with a value, or answer with a status.
  unfoldable pub or_refuse : ℕ → Result A → Step A
  or_refuse status (ok a) = give a
  or_refuse status (err e) = refuse status e

  abbrev pub left_db : World → Result A × Db Tables → Answer (Result A) × World
  left_db w (r, db) = (go r, record w { db = db })

  -- A call on the database, with its error still to be looked at.
  unfoldable pub on_db : Action Tables A → Step (Result A)
  on_db m w = left_db w (m w.db)

  abbrev pub left_blocklist : World → Result A × Blocklist → Answer (Result A) × World
  left_blocklist w (r, b) = (go r, record w { blocklist = b })

  unfoldable pub on_blocklist : (Blocklist → Result A × Blocklist) → Step (Result A)
  on_blocklist m w = left_blocklist w (m w.blocklist)

unfoldable pub refuse_if : Bool → ℕ → Err → Step (Unit {0})
refuse_if true status e = refuse status e
refuse_if false status e = give tt

-- The end of a handler: its answer.
abbrev pub reply : Reply → Step Reply
reply r w = (stop r, w)
