-- ===== src/Session/Laws/Spent.antt =====
-- The operations of internal/modules/user/refresh_store.go on a token whose row is revoked.
use golang_template.Prelude.{
  ℕ, ◌≡◌, refl, ap, sym, ◌∙◌, Bool, true, false, not, eqb, eqb_iff, ◌&&◌, ◌||◌, if◌then◌else◌, List,
  [], ◌∷◌, Option, none, some, arith, Bool-cases, inl, inr,
}
use golang_template.Storage.Keeps.{
  Keeps, Keeps-statement, Keeps-bind, Keeps-with_tx, Keeps-pure, Keeps-raise,
}
use golang_template.Outbox.Claim.{is_null}
use golang_template.Session.{
  RefreshSession, Tables, session_by, user_by, insert_session, insert, revoke_if, revoke_where,
  some_open, has_jti, has_user, select_revoked, refuse_revoked, rotate, revoke, revoke_all_for_user,
  increment, increment_token_version,
}

abbrev pub is_revoked : Option RefreshSession → Bool
is_revoked none = false
is_revoked (some s) = not (is_null s.revoked_at)

-- The row of a token, which is revoked.
abbrev pub IsSpent : ℕ → Tables → Type 0
IsSpent jti t = is_revoked (session_by jti t.refresh_tokens) ≡ true

module _ (now : ℕ) (r : Option ℕ) (s : RefreshSession) where
  revoke_if-jti : (b : Bool) → (revoke_if b now r s).jti ≡ s.jti
  revoke_if-jti b = ground arith

  revoke_if-revoked :
      (b : Bool) → is_revoked (some s) ≡ true → is_revoked (some (revoke_if b now r s)) ≡ true
  revoke_if-revoked b h = ground arith

  revoke_if-revokes : is_revoked (some (revoke_if true now r s)) ≡ true
  revoke_if-revokes = ground arith

  spends-chosen :
      (c : Bool) (o : Option RefreshSession) (rest : Bool)
      → (c && is_null s.revoked_at || rest) ≡ true
      → (rest ≡ true → is_revoked o ≡ true)
      → is_revoked (if c then some (revoke_if c now r s) else o) ≡ true
  spends-chosen true o rest h k = revoke_if-revokes
  spends-chosen false o rest h k = k h

keeps-chosen :
    (c : Bool) (s s' : RefreshSession) (o o' : Option RefreshSession)
    → (is_revoked (some s) ≡ true → is_revoked (some s') ≡ true)
    → (is_revoked o ≡ true → is_revoked o' ≡ true)
    → is_revoked (if c then some s else o) ≡ true
    → is_revoked (if c then some s' else o') ≡ true
keeps-chosen true s s' o o' k l h = k h
keeps-chosen false s s' o o' k l h = l h

module _ (p : RefreshSession → Bool) (now : ℕ) (replaced : RefreshSession → Option ℕ) where
  pub revoke_where-spent :
      (jti : ℕ) (ss : List RefreshSession)
      → is_revoked (session_by jti ss) ≡ true
      → is_revoked (session_by jti (revoke_where p now replaced ss)) ≡ true
  unfolding session_by revoke_where
  revoke_where-spent jti [] h = h
  revoke_where-spent jti (s ∷ ss) h = rw (revoke_if-jti now (replaced s) s (p s)) (
      keeps-chosen (eqb s.jti jti) s (revoke_if (p s) now (replaced s) s) (session_by jti ss) _
        (revoke_if-revoked now (replaced s) s (p s)) (revoke_where-spent jti ss) h)

pub revoke_where-spends :
    (jti now : ℕ) (replaced : RefreshSession → Option ℕ) (ss : List RefreshSession)
    → some_open (has_jti jti) ss ≡ true
    → is_revoked (session_by jti (revoke_where (has_jti jti) now replaced ss)) ≡ true
unfolding session_by revoke_where some_open
revoke_where-spends jti now replaced [] h = ground arith
revoke_where-spends jti now replaced (s ∷ ss) h =
    rw (revoke_if-jti now (replaced s) s (has_jti jti s)) (
      spends-chosen now (replaced s) s (has_jti jti s) _ (some_open (has_jti jti) ss) h
        (revoke_where-spends jti now replaced ss))

null-unspent : (o : Option RefreshSession) → is_null o ≡ true → is_revoked o ≡ false
null-unspent none h = refl
null-unspent (some s) h = ground arith

fresh-spent :
    (jti new_jti : ℕ) (new : RefreshSession) (ss : List RefreshSession)
    → new.jti ≡ new_jti
    → is_null (session_by new_jti ss) ≡ true
    → is_revoked (session_by jti ss) ≡ true
    → is_revoked (session_by jti (new ∷ ss)) ≡ true
unfolding session_by
fresh-spent jti new_jti new ss at_new none_yet h = elim (Bool-cases (eqb new.jti jti)) [
  | inl same ↦
      let e = sym at_new ∙ (eqb_iff new.jti jti).0 same in
      let unspent = null-unspent (session_by new_jti ss) none_yet in
      let spent = ap (λ j. is_revoked (session_by j ss)) e ∙ h in cc
  | inr other ↦ rw other h
]

insert_session-IsSpent :
    (jti id user_id new_jti expires_at : ℕ) (t : Tables)
    → IsSpent jti t
    → IsSpent jti (insert_session id user_id new_jti expires_at t).1
insert_session-IsSpent jti id user_id new_jti expires_at t h =
    elim (Bool-cases (is_null (user_by (λ u. eqb u.id user_id) t.users))) [
      | inl no_user ↦ rw no_user h
      | inr user ↦ rw user (elim (Bool-cases (is_null (session_by new_jti t.refresh_tokens))) [
        | inl free ↦ rw free (fresh-spent jti new_jti _ t.refresh_tokens refl free h)
        | inr taken ↦ rw taken h
      ])
    ]

module _ (jti : ℕ) where
  pub insert-IsSpent :
      (id user_id new_jti expires_at : ℕ)
      → Keeps (IsSpent jti) (insert id user_id new_jti expires_at)
  unfolding insert
  insert-IsSpent id user_id new_jti expires_at =
      Keeps-statement _ (insert_session-IsSpent jti id user_id new_jti expires_at)

  refuse-IsSpent : (revoked : Option ℕ) → Keeps (IsSpent jti) (refuse_revoked revoked)
  refuse-IsSpent none = Keeps-pure tt
  refuse-IsSpent (some at) = Keeps-raise _

  pub rotate-IsSpent :
      (new_id now old new_jti user_id expires_at : ℕ)
      → Keeps (IsSpent jti) (rotate new_id now old new_jti user_id expires_at)
  unfolding rotate
  rotate-IsSpent new_id now old new_jti user_id expires_at = Keeps-with_tx _ (
      Keeps-bind _ _ (Keeps-statement (select_revoked old) (λ t h. h)) (λ revoked.
        Keeps-bind _ _ (refuse-IsSpent revoked) (λ _.
          Keeps-bind _ _ (insert-IsSpent new_id user_id new_jti expires_at) (λ id.
            Keeps-statement _ (λ t h.
              revoke_where-spent (has_jti old) now (λ s. some id) jti t.refresh_tokens h)))))

  pub revoke-IsSpent : (now old : ℕ) → Keeps (IsSpent jti) (revoke now old)
  unfolding revoke
  revoke-IsSpent now old =
      Keeps-statement _
        (λ t h. revoke_where-spent (has_jti old) now (λ s. s.replaced_by) jti t.refresh_tokens h)

  pub revoke_all-IsSpent : (now user_id : ℕ) → Keeps (IsSpent jti) (revoke_all_for_user now user_id)
  unfolding revoke_all_for_user
  revoke_all-IsSpent now user_id =
      Keeps-statement _ (λ t h.
        revoke_where-spent (has_user user_id) now (λ s. s.replaced_by) jti t.refresh_tokens h)

  pub increment-IsSpent : (user_id : ℕ) → Keeps (IsSpent jti) (increment_token_version user_id)
  unfolding increment_token_version
  increment-IsSpent user_id = Keeps-statement (increment user_id) (λ t h. h)
