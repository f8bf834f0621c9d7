-- ===== src/Notifications/Senders.antt =====
-- The senders of internal/modules/notification/channel.go. The mailer and the HTTP client are
-- arguments, as are `json.Marshal`, `http.NewRequest` and the text made of HTML.
use golang_template.Prelude.{ℕ, String, ◌==◌, ◌<>◌, Bool, if◌then◌else◌, Option, none, some}
use golang_template.Errors.{Err, message, wrapped, permanent_error, Result, ok, err}
use golang_template.Notifications.{classify_status}

pub record Outbound : Type 0 where
  pub to_ : String
  pub subject : String
  pub body : String
  pub format : String

abbrev pub Sender : Type 0
Sender = Outbound → Option Err

unfoldable pub in_app_sender : Sender
in_app_sender msg = none

pub record Message : Type 0 where
  pub to_ : String
  pub subject : String
  pub text : String
  pub html : String

pub record Mailer : Type 0 where
  pub driver : String
  pub send : Message → Option Err

abbrev format_html : String
format_html = "html"

unfoldable pub to_message : (String → String) → Outbound → Message
to_message plain_from_html msg =
    if msg.format == format_html
    then record {
      to_ = msg.to_;
      subject = msg.subject;
      text = plain_from_html msg.body;
      html = msg.body;
    }
    else record { to_ = msg.to_; subject = msg.subject; text = msg.body; html = "" }

abbrev mailed : Option Err → Option Err
mailed none = none
mailed (some e) = some (wrapped "email" e)

unfoldable pub email_sender : Option Mailer → (String → String) → Sender
email_sender none plain_from_html msg = some (permanent_error (message "mail is disabled"))
email_sender (some mail) plain_from_html msg =
    if mail.driver == "nop"
    then some (permanent_error (message "mail is disabled"))
    else mailed (mail.send (to_message plain_from_html msg))

-- The request that a sender makes: its URL, its token or none, and its payload.
pub data Payload : Type 0 where
  webhook : (to_ subject body : String) → Payload
  telegram : (chat_id text : String) → Payload

pub record Request : Type 0 where
  pub url : String
  pub bearer : Option String
  pub payload : String

-- The status of the answer, or none where the request failed; and the text of a status.
pub record Http : Type 0 where
  pub marshal : Payload → Result String
  pub valid_url : String → Bool
  pub do_ : Request → Option ℕ
  pub status_text : String → ℕ → String

abbrev pub answered : Http → String → String → Option ℕ → Option Err
answered http kind failure none = some (message failure)
answered http kind failure (some n) = classify_status kind (http.status_text kind n) n

abbrev pub post : Http → String → String → String → Option String → Result String → Option Err
post http kind failure url bearer (err e) = some (permanent_error e)
post http kind failure url bearer (ok raw) =
    if http.valid_url url
    then answered http kind failure
        (http.do_ (record { url = url; bearer = bearer; payload = raw }))
    else some (permanent_error (message "invalid url"))

unfoldable pub webhook_sender : Http → String → String → String → Sender
webhook_sender http url token kind msg =
    post http kind (kind <> " request failed") url (if token == "" then none else some token)
      (http.marshal (webhook msg.to_ msg.subject msg.body))

abbrev telegram_text : Outbound → String
telegram_text msg = if msg.subject == "" then msg.body else msg.subject <> "\n" <> msg.body

unfoldable pub telegram_sender : Http → String → Sender
telegram_sender http token msg =
    post http "telegram" "telegram request failed"
      ("https://api.telegram.org/bot" <> token <> "/sendMessage") none
      (http.marshal (telegram msg.to_ (telegram_text msg)))
