-- ===== src/Authz/Laws.antt =====
-- Theorems on `AuthToken`, `Allows` and `OwnershipOrRole` of internal/platform/authz/authz.go.
use golang_template.Prelude.{
  ℕ, String, ◌==◌, eq_iff, ◌≡◌, ◌≢◌, ◌↔◌, refl, Bool, true, false, ◌&&◌, ◌||◌, not, eqb,
  if◌then◌else◌, Option, none, some, arith, ap, sym, ◌∙◌, Bool-cases, inl, inr,
}
use golang_template.Prelude.Int.{ℤ, pos, negsuc, ltb_ℤ}
use golang_template.Errors.{Err, Result, ok, err, message}
use golang_template.Session.Claims.{Claims, claim_string, claim_int, or_empty, type_access}
use golang_template.Session.Blocklist.{Blocklist, blocked}
use golang_template.Authz.{
  Principal, Guard, Answer, passed, unauthorized, outdated, with_principal, with_user,
  after_blocklist, with_subject, with_claims, auth_token, answer_of, dev_principal, allows,
  judge_level, granted, access_by_level, ownership_or_role,
}

-- `p` is the stored principal of the user that the token names, the token is a valid access token
-- that was not found on the blocklist, and its claim of a version is the user's version; a token
-- without that claim is not held against any version.
pub record Authenticated (g : Guard) (now : ℕ) (token : String) (b : Blocklist) (p : Principal)
    : Type 0 where
  pub claims : Claims
  pub valid : g.validate_token token ≡ ok claims
  pub access : or_empty (claim_string claims "typ") ≡ type_access
  pub sub : String
  pub names : claim_string claims "sub" ≡ some sub
  pub unbanned : (blocked now (or_empty (claim_string claims "jti")) b).0 ≢ ok true
  pub user_id : ℕ
  pub parsed : g.parse_uuid sub ≡ ok user_id
  pub user : Principal
  pub found : g.by_id user_id ≡ ok user
  pub current : (n : ℤ) → claim_int claims "ver" ≡ some n → n ≡ user.token_ver
  pub same_id : p.id ≡ user.id
  pub same_level : p.role_level ≡ user.role_level

passed_if :
    (o : Bool) (e : Err) (q p : Principal)
    → (if o then unauthorized e else passed q) ≡ passed p
    → (o ≡ false) × (q ≡ p)
passed_if true e q p h = cc
passed_if false e q p h = (refl, cc)

neither_below : (n v : ℤ) → ltb_ℤ n v || ltb_ℤ v n ≡ false → n ≡ v
neither_below (pos n) (pos v) h = ap pos (ground (arith))
neither_below (pos n) (negsuc v) h = absurd (ground (arith))
neither_below (negsuc n) (pos v) h = absurd (ground (arith))
neither_below (negsuc n) (negsuc v) h = ap negsuc (ground (arith))

abbrev value_of : Option ℤ → ℤ → ℤ
value_of none k = k
value_of (some n) k = n

same_version : (o : Option ℤ) (v : ℤ) → outdated o v ≡ false → (n : ℤ) → o ≡ some n → n ≡ v
same_version none v h n e = cc
same_version (some k) v h n e = ap (λ o. value_of o k) (sym e) ∙ neither_below k v h

passed_on :
    (u : Principal) (claims : Claims) (jti : String) (p : Principal)
    → with_principal claims jti (ok u) ≡ passed p
    → ((n : ℤ) → claim_int claims "ver" ≡ some n → n ≡ u.token_ver)
      × (p.id ≡ u.id)
      × (p.role_level ≡ u.role_level)
passed_on u claims jti p h =
    let (current, same) = passed_if _ _ _ p h in
    (
      same_version (claim_int claims "ver") u.token_ver current,
      ap (λ (x : Principal). x.id) (sym same),
      ap (λ (x : Principal). x.role_level) (sym same),
    )

not_dev :
    (a c d required empty : Bool) (dev : Answer) (e : Err) (b : Blocklist)
    (rest : Answer × Blocklist) (p : Principal)
    → a && c ≡ false
    → required ≡ true
    → (if a && c && d
        then (dev, b)
        else if empty
        then (if not required then dev else unauthorized e, b)
        else rest).0
      ≡ passed p
    → rest.0 ≡ passed p
not_dev false c d true true dev e b rest p off on h = cc
not_dev false c d true false dev e b rest p off on h = h
not_dev false c d false empty dev e b rest p off on h = cc
not_dev true false d true true dev e b rest p off on h = cc
not_dev true false d true false dev e b rest p off on h = h
not_dev true false d false empty dev e b rest p off on h = cc
not_dev true true d required empty dev e b rest p off on h = cc

module _ (g : Guard) (now : ℕ) (token : String) (b : Blocklist) (p : Principal) where
  module _ (claims : Claims) (sub : String) (valid : g.validate_token token ≡ ok claims)
      (access : or_empty (claim_string claims "typ") ≡ type_access)
      (names : claim_string claims "sub" ≡ some sub) where
    from_principal :
        (user_id : ℕ) (r : Result Principal)
        → (blocked now (or_empty (claim_string claims "jti")) b).0 ≢ ok true
        → g.parse_uuid sub ≡ ok user_id
        → g.by_id user_id ≡ r
        → with_principal claims (or_empty (claim_string claims "jti")) r ≡ passed p
        → Authenticated g now token b p
    from_principal user_id (err e) free parsed found h = cc
    from_principal user_id (ok u) free parsed found h =
        let (current, same_id, same_level) = passed_on u claims _ p h in
        record {
          claims = claims;
          valid = valid;
          access = access;
          sub = sub;
          names = names;
          unbanned = free;
          user_id = user_id;
          parsed = parsed;
          user = u;
          found = found;
          current = current;
          same_id = same_id;
          same_level = same_level;
        }

    from_user :
        (r : Result ℕ)
        → (blocked now (or_empty (claim_string claims "jti")) b).0 ≢ ok true
        → g.parse_uuid sub ≡ r
        → with_user g claims (or_empty (claim_string claims "jti")) r ≡ passed p
        → Authenticated g now token b p
    from_user (err e) free parsed h = cc
    from_user (ok user_id) free parsed h =
        from_principal user_id (g.by_id user_id) free parsed refl h

    from_blocklist :
        (a : Result Bool × Blocklist)
        → (blocked now (or_empty (claim_string claims "jti")) b).0 ≡ a.0
        → (after_blocklist g claims sub (or_empty (claim_string claims "jti")) a).0 ≡ passed p
        → Authenticated g now token b p
    from_blocklist (ok true, c) e h = cc
    from_blocklist (ok false, c) e h = from_user (g.parse_uuid sub) (λ banned. cc) refl h
    from_blocklist (err x, c) e h = from_user (g.parse_uuid sub) (λ banned. cc) refl h

  from_subject :
      (claims : Claims) (o : Option String)
      → g.validate_token token ≡ ok claims
      → or_empty (claim_string claims "typ") ≡ type_access
      → claim_string claims "sub" ≡ o
      → (with_subject g now claims o b).0 ≡ passed p
      → Authenticated g now token b p
  from_subject claims none valid access names h = cc
  from_subject claims (some sub) valid access names h =
      from_blocklist claims sub valid access names _ refl h

  from_type :
      (claims : Claims) (access : Bool)
      → or_empty (claim_string claims "typ") == type_access ≡ access
      → g.validate_token token ≡ ok claims
      → (if not access
          then (unauthorized (message "access token required"), b)
          else with_subject g now claims (claim_string claims "sub") b).0
        ≡ passed p
      → Authenticated g now token b p
  from_type claims true e valid h =
      from_subject claims (claim_string claims "sub") valid
        ((eq_iff (or_empty (claim_string claims "typ")) type_access).0 e) refl h
  from_type claims false e valid h = cc

  from_claims :
      (r : Result Claims)
      → g.validate_token token ≡ r
      → (with_claims g now r b).0 ≡ passed p
      → Authenticated g now token b p
  from_claims (err e) valid h = cc
  from_claims (ok claims) valid h = from_type claims _ refl valid h

  -- A guard that requires authentication, and does not allow a development token or has none,
  -- passes a request on only with the identity and the level of the stored user that a valid
  -- access token names. The token was not found on the blocklist (a blocklist that fails finds
  -- nothing), and its version, if it claims one, is the user's.
  pub passed_is_Authenticated :
      g.allow_dev && not (g.dev_token == "") ≡ false
      → g.required ≡ true
      → (auth_token g now token b).0 ≡ passed p
      → Authenticated g now token b p
  unfolding auth_token
  passed_is_Authenticated no_dev required h = from_claims (g.validate_token token) refl (
      not_dev g.allow_dev (not (g.dev_token == "")) (token == g.dev_token) g.required (token == "")
        (answer_of (dev_principal g)) (message "authorization header is missing") b
        (with_claims g now (g.validate_token token) b) p no_dev required h)

not_zero : (n : ℕ) → n ≢ 0 → eqb n 0 ≡ false
not_zero n h = ground arith

module _ (g : Guard) (role : String) (owner : ℕ) where
  levels_agree :
      (p : Principal) (l : Result ℤ) → (access_by_level p l ≡ granted) ↔ (judge_level p l ≡ none)
  levels_agree p (ok level) = ground arith
  levels_agree p (err e) = ground arith

  -- For an owner that is not nil, the middleware OwnershipOrRole lets a request through exactly
  -- where Allows returns no error.
  pub ownership_or_role-allows :
      (principal : Option Principal)
      → owner ≢ 0
      → (ownership_or_role g role owner principal ≡ granted)
        ↔ (allows g principal role owner ≡ none)
  unfolding ownership_or_role allows
  ownership_or_role-allows none named = ground arith
  ownership_or_role-allows (some p) named = elim (Bool-cases g.rbac_enabled) [
    | inr off ↦ rw off (λ _. refl, λ _. refl)
    | inl on ↦ rw on (
        rw (not_zero owner named) (elim (Bool-cases (eqb owner p.id)) [
          | inl mine ↦ rw mine (λ _. refl, λ _. refl)
          | inr other ↦ rw other (levels_agree p (g.level_of role))
        ]))
  ]
