-- ===== src/Auth/Passwords.antt =====
-- internal/server/auth/auth.go: how a password is set, and the first account.
use server_monitor.Common.{
  ℕ, Bool, not, ◌||◌, if◌then◌else◌, ◌==◌, Option, none, some, [], ◌∷◌, keep, length,
}
use server_monitor.Common.Assoc.{lookup}
use server_monitor.Repository.Paths.{Name, Name-discrete, same}
use server_monitor.Auth.{
  Crypto, Account, Tables, AuthError, err_credentials, err_no_user, err_password, err_initialized,
  err_database, LoginResult, granted, refused, password_refused, create_session, update_user,
  user_by_id,
}

-- The first two statements of the transactions that set a password.
unfoldable pub set_password : ℕ → Name → Tables → Tables
set_password id hash db = record db {
  users = update_user id (λ u. record u { password_hash = hash }) db.users;
  sessions = keep (λ s. not (s.user == id)) db.sessions;
}

-- The transaction of ChangePassword, which is rolled back where a statement fails.
unfoldable pub replace_password :
    Crypto → ℕ → Bool → Option Name → ℕ → Name → Tables → Tables × LoginResult
replace_password cr now fails raw id hash db =
    let r = create_session cr now fails raw id (set_password id hash db) in
    elim (r.1) [ none ↦ (db, refused err_database) | some token ↦ (r.0, granted id token) ]

unfoldable pub change_account :
    Crypto → ℕ → Bool → Option Name → Name → Name → Account → Tables → Tables × LoginResult
change_account cr now fails raw current next u db =
    if not (cr.compare_hash u.password_hash current)
    then (db, refused err_credentials)
    else elim (cr.generate next) [
      | none ↦ (db, refused err_password)
      | some hash ↦ replace_password cr now fails raw u.id hash db
    ]

-- ChangePassword
unfoldable pub change_password :
    Crypto → ℕ → Bool → Option Name → ℕ → Name → Name → Tables → Tables × LoginResult
change_password cr now fails raw id current next db =
    if same current [] || same next [] || password_refused cr next || same current next
    then (db, refused err_password)
    else elim (user_by_id id db.users) [
      | none ↦ (db, refused err_no_user)
      | some (name, u) ↦ change_account cr now fails raw current next u db
    ]

unfoldable pub reset_account : Bool → Name → Option Account → Tables → Tables × Option AuthError
reset_account fails hash none db = (db, some err_no_user)
reset_account fails hash (some u) db =
    if fails then (db, some err_database) else (set_password u.id hash db, none)

-- ResetPassword
unfoldable pub reset_password : Crypto → Bool → Name → Name → Tables → Tables × Option AuthError
reset_password cr fails username password db =
    if same username [] || same password [] || password_refused cr password
    then (db, some err_password)
    else elim (cr.generate password) [
      | none ↦ (db, some err_password)
      | some hash ↦ reset_account fails hash (lookup Name-discrete username db.users) db
    ]

abbrev pub first_admin : Name → Name → ℕ → Tables → Tables
first_admin username hash id db = record db {
  users =
      (username, record { id = id; password_hash = hash; failed = 0; locked_until = none }) ∷ [];
}

-- CreateAdmin, which takes the database's lock; the id is the database's.
unfoldable pub create_admin : Crypto → Bool → ℕ → Name → Name → Tables → Tables × Option AuthError
create_admin cr fails id username password db =
    if same username [] || same password [] || password_refused cr password
    then (db, some err_password)
    else elim (cr.generate password) [
      | none ↦ (db, some err_password)
      | some hash ↦
          if fails
          then (db, some err_database)
          else if not (length db.users == 0)
          then (db, some err_initialized)
          else (first_admin username hash id db, none)
    ]
