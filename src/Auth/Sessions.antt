-- ===== src/Auth/Sessions.antt =====
-- internal/server/auth/auth.go: the sessions that a change of the password ends.
use server_monitor.Common.{
  ℕ, ◌≡◌, sym, ap, ◌∙◌, arith, Bool, true, false, not, ◌||◌, ◌==◌, if-holds, if-holds_given, List,
  [], ◌∷◌, keep, any, Option, none, some, Bool-cases, Option-cases, inl, inr, ◌⊎◌, ◌+◌,
}
use mathlib.Core.Path.{subst}
use server_monitor.Repository.Paths.{Name, same}
use server_monitor.Auth.{
  Crypto, Account, Session, Tables, LoginResult, granted, refused, AuthError, err_credentials,
  err_no_user, err_password, err_database, password_refused, session_ttl, create_session,
  session_of, check_session, resolve_session, user_by_id,
}
use server_monitor.Auth.Passwords.{set_password, replace_password, change_account, change_password}

-- The user has no session but the one with this hash.
abbrev pub OnlySession : ℕ → Name → Tables → Type 0
OnlySession user hash db =
    (token : Name) (s : Session)
    → session_of token db.sessions ≡ some s
    → s.user ≡ user
    → token ≡ hash

session_of-found :
    (token : Name) (s x : Session) (ss : List Session)
    → session_of token (x ∷ ss) ≡ some s
    → (session_of token ss ≡ some s) ⊎ ((x ≡ s) × (same x.token token ≡ true))
unfolding session_of
session_of-found token s x ss h = elim (Bool-cases (same x.token token)) [
  | inl on ↦ inr (ground (arith, on, h), on)
  | inr off ↦ inl (ground (arith, off, h))
]

session_of-keep :
    (user : ℕ) (token : Name) (s : Session) (ss : List Session)
    → session_of token (keep (λ x. not (x.user == user)) ss) ≡ some s
    → (s.user == user) ≡ false
unfolding session_of
session_of-keep user token s [] = λ h. ground (arith, h)
session_of-keep user token s (x ∷ ss) =
    let rest = keep (λ y. not (y.user == user)) ss in
    if-holds_given (λ l. session_of token l ≡ some s → (s.user == user) ≡ false)
      (not (x.user == user)) (x ∷ rest) rest
      (λ on h. elim (session_of-found token s x rest h) [
        | inl later ↦ session_of-keep user token s ss later
        | inr (e, _) ↦ ap (λ y. y.user == user) (sym e) ∙ ground (arith, on)
      ])
      (λ _ h. session_of-keep user token s ss h)

same-≡ : (a b : Name) → same a b ≡ true → a ≡ b
same-≡ a b h = ground (arith, h)

new_session-only :
    (user expires : ℕ) (hash : Name) (ss : List Session) (users : List (Name × Account))
    → OnlySession user hash (record {
      users = users;
      sessions =
          record { token = hash; user = user; expires_at = expires }
          ∷ keep (λ s. not (s.user == user)) ss;
    })
new_session-only user expires hash ss users token s h u =
    elim (session_of-found token s (record { token = hash; user = user; expires_at = expires })
      (keep (λ x. not (x.user == user)) ss) h) [
        | inl later ↦ ground (arith, session_of-keep user token s ss later, u)
        | inr (e, t) ↦ sym (same-≡ hash token t)
      ]

-- A result that grants a session, which is then the only one of its user.
abbrev Renews : Name → Tables × LoginResult → Type 0
Renews hash r = (user : ℕ) (token : Name) → r.1 ≡ granted user token → OnlySession user hash r.0

refused-Renews : (hash : Name) (db : Tables) (e : AuthError) → Renews hash (db, refused e)
refused-Renews hash db e user token h = ground (arith, h)

abbrev replaced : ℕ → Tables → Tables × Option Name → Tables × LoginResult
replaced id db r = elim (r.1) [
  | none ↦ (db, refused err_database)
  | some token ↦ (r.0, granted id token)
]

granted_user : (id user : ℕ) (t t' : Name) → granted id t ≡ granted user t' → id ≡ user
granted_user id user t t' e = ground (arith, e)

replace_password-Renews :
    (cr : Crypto) (now : ℕ) (fails : Bool) (raw : Name) (id : ℕ) (hash : Name) (db : Tables)
    → Renews (cr.hash_token raw) (replace_password cr now fails (some raw) id hash db)
unfolding replace_password create_session set_password
replace_password-Renews cr now fails raw id hash db =
    let db₁ = set_password id hash db in
    let h = cr.hash_token raw in
    let new : Tables = record db₁ {
      sessions = record { token = h; user = id; expires_at = now + session_ttl } ∷ db₁.sessions;
    } in
    if-holds (λ r. Renews h (replaced id db r)) (fails || any (λ s. same s.token h) db₁.sessions)
      (db₁, none) (new, some (cr.encode_hex raw)) (refused-Renews h db err_database)
      (λ user token e.
        subst (λ u. OnlySession u h new) (granted_user id user (cr.encode_hex raw) token e)
          (new_session-only id (now + session_ttl) h db.sessions db₁.users))

change_account-Renews :
    (cr : Crypto) (now : ℕ) (fails : Bool) (raw current next : Name) (u : Account) (db : Tables)
    → Renews (cr.hash_token raw) (change_account cr now fails (some raw) current next u db)
unfolding change_account
change_account-Renews cr now fails raw current next u db =
    let h = cr.hash_token raw in
    let step : Option Name → Tables × LoginResult = (λ o. elim o [
      | none ↦ (db, refused err_password)
      | some hash ↦ replace_password cr now fails (some raw) u.id hash db
    ]) in
    let generated : Renews h (step (cr.generate next)) = elim (Option-cases (cr.generate next)) [
      | inl e ↦ subst (λ o. Renews h (step o)) (sym e) (refused-Renews h db err_password)
      | inr (hash, e) ↦
          subst (λ o. Renews h (step o)) (sym e)
            (replace_password-Renews cr now fails raw u.id hash db)
    ] in
    if-holds (Renews h) (not (cr.compare_hash u.password_hash current))
      (db, refused err_credentials) (step (cr.generate next)) (refused-Renews h db err_credentials)
      generated

change_password-Renews :
    (cr : Crypto) (now : ℕ) (fails : Bool) (raw : Name) (id : ℕ) (current next : Name) (db : Tables)
    → Renews (cr.hash_token raw) (change_password cr now fails (some raw) id current next db)
unfolding change_password
change_password-Renews cr now fails raw id current next db =
    let h = cr.hash_token raw in
    let step : Option (Name × Account) → Tables × LoginResult = (λ o. elim o [
      | none ↦ (db, refused err_no_user)
      | some (name, u) ↦ change_account cr now fails (some raw) current next u db
    ]) in
    let found : Renews h (step (user_by_id id db.users)) =
      elim (Option-cases (user_by_id id db.users)) [
        | inl e ↦ subst (λ o. Renews h (step o)) (sym e) (refused-Renews h db err_no_user)
        | inr ((name, u), e) ↦
            subst (λ o. Renews h (step o)) (sym e)
              (change_account-Renews cr now fails raw current next u db)
      ] in
    if-holds (Renews h)
      (same current [] || same next [] || password_refused cr next || same current next)
      (db, refused err_password) (step (user_by_id id db.users)) (refused-Renews h db err_password)
      found

check_session-user :
    (now : ℕ) (fails : Bool) (s : Session) (user : ℕ) (k : Name) (db : Tables)
    → (check_session now fails (some s) db).1 ≡ granted user k
    → s.user ≡ user
unfolding check_session
check_session-user now fails s user k db h = ground (arith, h)

check_session-token :
    (now : ℕ) (fails : Bool) (token : Name) (user : ℕ) (granted_hash : Name) (hash : Name)
    (db : Tables)
    → OnlySession user hash db
    → (check_session now fails (session_of token db.sessions) db).1 ≡ granted user granted_hash
    → token ≡ hash
unfolding check_session
check_session-token now fails token user k hash db only h =
    elim (Option-cases (session_of token db.sessions)) [
      | inl e ↦ ground (arith, e, h)
      | inr (s, e) ↦
          let found : (check_session now fails (some s) db).1 ≡ granted user k =
            ap (λ o. (check_session now fails o db).1) (sym e) ∙ h in
          only token s e (check_session-user now fails s user k db found)
    ]

abbrev resolved : Crypto → ℕ → Bool → Tables → Option Name → LoginResult
resolved cr now fails db none = refused err_credentials
resolved cr now fails db (some raw) =
    (check_session now fails (session_of (cr.hash_token raw) db.sessions) db).1

resolve_session-resolved :
    (cr : Crypto) (now : ℕ) (fails : Bool) (token : Name) (db : Tables)
    → (resolve_session cr now fails token db).1 ≡ resolved cr now fails db (cr.decode_hex token)
unfolding resolve_session
resolve_session-resolved cr now fails token db = elim (Option-cases (cr.decode_hex token)) [
  | inl e ↦ ground (arith, e)
  | inr (raw, e) ↦ ground (arith, e)
]

-- Where ChangePassword succeeds, every token that afterwards resolves to its user has the hash of the new session's
-- token: all earlier sessions of the user are over.
pub change_password-revokes :
    (cr : Crypto) (now : ℕ) (fails : Bool) (raw : Name) (id : ℕ) (current next : Name) (db : Tables)
    (user : ℕ) (token : Name) (later : ℕ) (f : Bool) (other bytes k : Name)
    → (change_password cr now fails (some raw) id current next db).1 ≡ granted user token
    → cr.decode_hex other ≡ some bytes
    → (resolve_session cr later f other
        (change_password cr now fails (some raw) id current next db).0).1
      ≡ granted user k
    → cr.hash_token bytes ≡ cr.hash_token raw
change_password-revokes cr now fails raw id current next db user token later f other bytes k done d
      h =
    let db' = (change_password cr now fails (some raw) id current next db).0 in
    check_session-token later f (cr.hash_token bytes) user k (cr.hash_token raw) db'
      (change_password-Renews cr now fails raw id current next db user token done)
      (ap (resolved cr later f db') (sym d)
        ∙ sym (resolve_session-resolved cr later f other db')
        ∙ h)
