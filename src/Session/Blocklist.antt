-- ===== src/Session/Blocklist.antt =====
-- internal/platform/authn/blocklist.go: the identifiers of tokens that are banned until they
-- expire.
--
-- Redis keeps entries with the second at which they end; `none` is a `Blocklist` without a client.
-- A call to Redis may fail, with or without effect. Times are seconds.
use golang_template.Prelude.{
  ℕ, String, ◌==◌, Bool, false, ◌&&◌, ◌||◌, ltb, if◌then◌else◌, List, [], ◌∷◌, Option, none, some,
  ◌<>◌,
}
use golang_template.Prelude.Int.{ℤ, pos, pos_part, ltb_ℤ}
use golang_template.Errors.{Result, ok}
use golang_template.Storage.{Db, statement}

abbrev pub Cache : Type 0
Cache = List (String × ℕ)

abbrev pub Blocklist : Type 0
Blocklist = Option (Db Cache)

-- `EXISTS`: whether a key has an entry that has not ended.
unfoldable pub exists : ℕ → String → Cache → Bool
exists now key [] = false
exists now key ((k, until) ∷ rest) = k == key && ltb now until || exists now key rest

abbrev pub block_prefix : String
block_prefix = "auth:bl:"

abbrev pub kept : {A : Type 0} → Result A × Db Cache → Result A × Blocklist
kept (r, db) = (r, some db)

-- `Ban`
unfoldable pub ban : ℕ → String → ℤ → Blocklist → Result (Unit {0}) × Blocklist
ban now jti until none = (ok tt, none)
ban now jti until (some db) =
    if jti == ""
    then (ok tt, some db)
    else if ltb_ℤ (pos now) until
    then kept (statement (λ c. (ok tt, (block_prefix <> jti, pos_part until) ∷ c)) db)
    else (ok tt, some db)

-- `Blocked`
unfoldable pub blocked : ℕ → String → Blocklist → Result Bool × Blocklist
blocked now jti none = (ok false, none)
blocked now jti (some db) =
    if jti == ""
    then (ok false, some db)
    else kept (statement (λ c. (ok (exists now (block_prefix <> jti) c), c)) db)
