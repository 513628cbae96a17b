-- ===== src/Auth/Lockout.antt =====
-- internal/server/auth/auth.go: the attempts to log in that Login lets through to the password.
use server_monitor.Common.{
  ℕ, ◌≡◌, refl, sym, ◌≤◌, ◌<◌, ◌+◌, arith, Bool, true, false, ltb, List, [], ◌∷◌, Option, none,
  some, All, Bool-cases, ltb→lt, suc, inl, inr, if◌then◌else◌,
}
use mathlib.Core.Path.{subst}
use server_monitor.Common.Assoc.{lookup}
use server_monitor.Repository.Paths.{Name, Name-discrete}
use server_monitor.Auth.{
  Crypto, Account, Tables, LoginFaults, max_failed_logins, lockout_duration, update_user, is_locked,
  count_failure, lock_account, refuse_login, login_account, login, accept_login, login_result,
  LoginResult, granted, refused, err_credentials, err_no_user, err_expired, err_locked,
  err_password, err_initialized, err_database,
}

-- An attempt to log in.
pub record Attempt : Type 0 where
  pub at : ℕ
  pub password : Name
  pub random : Option Name

abbrev no_faults : LoginFaults
no_faults = record { counts = false; locks = false; resets = false; stores = false }

-- The answer that refuses an attempt without a look at its password.
abbrev pub is_shut : LoginResult → Bool
is_shut (granted id token) = false
is_shut (refused err_credentials) = false
is_shut (refused err_no_user) = false
is_shut (refused err_expired) = false
is_shut (refused err_locked) = true
is_shut (refused err_password) = false
is_shut (refused err_initialized) = false
is_shut (refused err_database) = false

-- Whether the right password, in place of the attempt's, would not be answered that the account is locked.
unfoldable pub opens : Crypto → Name → Name → Attempt → Tables → ℕ
opens cr right name a db =
    if is_shut (login cr a.at no_faults a.random name right db).1 then 0 else 1

-- How many of the attempts come when Login lets the right password through.
unfoldable pub guesses : Crypto → Name → Name → List Attempt → Tables → ℕ
guesses cr right name [] db = 0
guesses cr right name (a ∷ more) db =
    guesses cr right name more (login cr a.at no_faults a.random name a.password db).0
    + opens cr right name a db

lookup-update_user :
    (name : Name) (f : Account → Account) (u : Account) (us : List (Name × Account))
    → lookup Name-discrete name us ≡ some u
    → lookup Name-discrete name (update_user u.id f us) ≡ some (f u)
unfolding lookup update_user
lookup-update_user name f u [] h = ground (arith, h)
lookup-update_user name f u ((k, v) ∷ us) h = ground (arith, h, lookup-update_user name f u us)

login-locked :
    (cr : Crypto) (name : Name) (a : Attempt) (u : Account) (db : Tables)
    → lookup Name-discrete name db.users ≡ some u
    → is_locked a.at u ≡ true
    → (login cr a.at no_faults a.random name a.password db).0 ≡ db
unfolding login login_account
login-locked cr name a u db e l = ground (arith, e, l)

opens-locked :
    (cr : Crypto) (right name : Name) (a : Attempt) (u : Account) (db : Tables)
    → lookup Name-discrete name db.users ≡ some u
    → is_locked a.at u ≡ true
    → opens cr right name a db ≡ 0
unfolding opens login login_account
opens-locked cr right name a u db e l = ground (arith, e, l)

is_shut-login_result : (id : ℕ) (r : Tables × Option Name) → is_shut (login_result id r).1 ≡ false
is_shut-login_result id (db, none) = refl
is_shut-login_result id (db, some token) = refl

opens-right :
    (cr : Crypto) (right name : Name) (a : Attempt) (u : Account) (db : Tables)
    → lookup Name-discrete name db.users ≡ some u
    → is_locked a.at u ≡ false
    → cr.compare_hash u.password_hash right ≡ true
    → opens cr right name a db ≡ 1
unfolding opens login login_account
opens-right cr right name a u db e l r =
    ground
      (arith, e, l, r, is_shut-login_result u.id (accept_login cr a.at no_faults a.random u db))

-- The account after a wrong password.
abbrev failed_once : ℕ → Account → Account
failed_once now u =
    if ltb (u.failed + 1) max_failed_logins
    then count_failure u
    else lock_account now (count_failure u)

login-wrong :
    (cr : Crypto) (name : Name) (a : Attempt) (u : Account) (db : Tables)
    → lookup Name-discrete name db.users ≡ some u
    → is_locked a.at u ≡ false
    → cr.compare_hash u.password_hash a.password ≡ false
    → (login cr a.at no_faults a.random name a.password db).0 ≡ (refuse_login a.at no_faults u db).0
unfolding login login_account
login-wrong cr name a u db e l w = ground (arith, e, l, w)

refuse_login-lookup :
    (name : Name) (now : ℕ) (u : Account) (db : Tables)
    → lookup Name-discrete name db.users ≡ some u
    → lookup Name-discrete name (refuse_login now no_faults u db).0.users ≡ some (failed_once now u)
unfolding refuse_login
refuse_login-lookup name now u db e =
    let counted = lookup-update_user name count_failure u db.users e in
    let locked =
      lookup-update_user name (lock_account now) (count_failure u)
        (update_user u.id count_failure db.users) counted in
    elim (Bool-cases (ltb (u.failed + 1) max_failed_logins)) [
      | inl on ↦ ground (arith, on, counted)
      | inr off ↦ ground (arith, off, locked)
    ]

-- Attempts inside a window, with passwords that do not match.
abbrev pub AllWrong : Crypto → Name → ℕ → List Attempt → Type 0
AllWrong cr hash start = All (λ a.
    ((start ≤ a.at) × (a.at < start + lockout_duration))
    × (cr.compare_hash hash a.password ≡ false))

guesses_while_locked :
    (cr : Crypto) (right name : Name) (start until : ℕ) (attempts : List Attempt) (u : Account)
    (db : Tables)
    → lookup Name-discrete name db.users ≡ some u
    → u.locked_until ≡ some until
    → start + lockout_duration ≤ until
    → AllWrong cr u.password_hash start attempts
    → guesses cr right name attempts db ≡ 0
unfolding guesses
guesses_while_locked cr right name start until [] u db e l b h = refl
guesses_while_locked cr right name start until (a ∷ more) u db e l b (((t, t'), w), h) =
    let locked : is_locked a.at u ≡ true = ground (arith, l, b, t') in
    let none_now : opens cr right name a db ≡ 0 = opens-locked cr right name a u db e locked in
    let rest =
      subst (λ d. guesses cr right name more d ≡ 0) (sym (login-locked cr name a u db e locked))
        (guesses_while_locked cr right name start until more u db e l b h) in
    omega (arith, rest, none_now)

-- After a wrong password: the count is one higher, or the account is locked for the rest of the window.
guesses-le_failed :
    (cr : Crypto) (right name : Name) (start : ℕ) (attempts : List Attempt) (now : ℕ) (u : Account)
    (db : Tables)
    → start ≤ now
    → u.failed < max_failed_logins
    → lookup Name-discrete name db.users ≡ some (failed_once now u)
    → cr.compare_hash u.password_hash right ≡ true
    → AllWrong cr u.password_hash start attempts
    → ((v : Account)
        → lookup Name-discrete name db.users ≡ some v
        → v.failed < max_failed_logins
        → cr.compare_hash v.password_hash right ≡ true
        → AllWrong cr v.password_hash start attempts
        → guesses cr right name attempts db + v.failed ≤ max_failed_logins)
    → suc (guesses cr right name attempts db + u.failed) ≤ max_failed_logins
guesses-le_failed cr right name start attempts now u db t f e r h rec =
    elim (Bool-cases (ltb (u.failed + 1) max_failed_logins)) [
      | inl on ↦
          let e' : lookup Name-discrete name db.users ≡ some (count_failure u) =
            ground (arith, e, on) in
          omega (arith, rec (count_failure u) e' (ltb→lt (u.failed + 1) max_failed_logins on) r h)
      | inr off ↦
          let v = lock_account now (count_failure u) in
          let e' : lookup Name-discrete name db.users ≡ some v = ground (arith, e, off) in
          omega (
            arith,
            guesses_while_locked cr right name start (now + lockout_duration) attempts v db e' refl
                (omega (arith, t)) h,
            f,
          )
    ]

-- Where no statement fails and the logins do not overlap: a user has fewer than ten failures counted, and wrong
-- passwords are tried within a quarter of an hour. Then at most the missing ones to ten come at a moment when Login lets
-- the right password through; at every other one it would answer to it, too, that the account is locked.
pub guesses-le :
    (cr : Crypto) (right name : Name) (start : ℕ) (attempts : List Attempt) (u : Account)
    (db : Tables)
    → lookup Name-discrete name db.users ≡ some u
    → u.failed < max_failed_logins
    → cr.compare_hash u.password_hash right ≡ true
    → AllWrong cr u.password_hash start attempts
    → guesses cr right name attempts db + u.failed ≤ max_failed_logins
unfolding guesses
guesses-le cr right name start [] u db e f r h = omega (arith, f)
guesses-le cr right name start (a ∷ more) u db e f r (((t, t'), w), h) =
    elim (Bool-cases (is_locked a.at u)) [
      | inl on ↦
          let skipped : opens cr right name a db ≡ 0 = opens-locked cr right name a u db e on in
          let rest =
            subst (λ d. guesses cr right name more d + u.failed ≤ max_failed_logins)
              (sym (login-locked cr name a u db e on))
              (guesses-le cr right name start more u db e f r h) in
          omega (arith, rest, skipped)
      | inr off ↦
          let counted : opens cr right name a db ≡ 1 = opens-right cr right name a u db e off r in
          let db' = (refuse_login a.at no_faults u db).0 in
          let wrong = login-wrong cr name a u db e off w in
          let after = refuse_login-lookup name a.at u db e in
          let rest =
            guesses-le_failed cr right name start more a.at u db' t f after r h
              (λ v e' f' r' h'. guesses-le cr right name start more v db' e' f' r' h') in
          let rest' =
            subst (λ d. suc (guesses cr right name more d + u.failed) ≤ max_failed_logins)
              (sym wrong) rest in
          omega (arith, rest', counted)
    ]
