-- ===== src/Tokens/Laws.antt =====
-- Theorems on `Consume` of internal/modules/user/token_store.go.
use golang_template.Prelude.{ℕ, ◌≤◌, String, ◌≡◌, ◌≢◌, false, List, [], ◌∷◌, All, arith}
use golang_template.Errors.{ok}
use golang_template.Storage.{Db}
use golang_template.Storage.Laws.{statement-eq-ok}
use golang_template.Tokens.{UserToken, is_usable, use_if, use_where, first_used, consume}

-- No row can be consumed any more, now or later.
abbrev pub NoneUsable : ℕ → String → String → List UserToken → Type 0
NoneUsable now h purpose ts = All (λ t. is_usable now h purpose t ≡ false) ts

use_if-used :
    (now later : ℕ) (h purpose : String) (t : UserToken)
    → now ≤ later
    → is_usable later h purpose (use_if (is_usable now h purpose t) now t) ≡ false
use_if-used now later h purpose t le = ground arith

use_where-NoneUsable :
    (now later : ℕ) (h purpose : String) (ts : List UserToken)
    → now ≤ later
    → NoneUsable later h purpose (use_where (is_usable now h purpose) now ts)
unfolding use_where
use_where-NoneUsable now later h purpose [] le = tt
use_where-NoneUsable now later h purpose (t ∷ ts) le =
    (use_if-used now later h purpose t le, use_where-NoneUsable now later h purpose ts le)

first_used-none :
    (now : ℕ) (h purpose : String) (ts : List UserToken) (t : UserToken)
    → NoneUsable now h purpose ts
    → first_used (is_usable now h purpose) now ts ≢ ok t
unfolding first_used
first_used-none now h purpose [] t ps = λ e. cc
first_used-none now h purpose (x ∷ ts) t (p, ps) = rw p (first_used-none now h purpose ts t ps)

-- After a token was consumed, a second use of it at the same time or later, for the same purpose,
-- returns an error, whatever the connection does.
pub consumed_at_most_once :
    (hash : String → String) (now later : ℕ) (plain purpose : String) (db : Db (List UserToken))
    (t u : UserToken)
    → (consume hash now plain purpose db).0 ≡ ok t
    → now ≤ later
    → (consume hash later plain purpose (consume hash now plain purpose db).1).0 ≢ ok u
unfolding consume
consumed_at_most_once hash now later plain purpose db t u done le = λ again.
    let (_, left) = statement-eq-ok _ db done in
    let (found, _) = statement-eq-ok _ _ again in
    first_used-none later (hash plain) purpose _ u
      (rw left (use_where-NoneUsable now later (hash plain) purpose db.tables le)) found
