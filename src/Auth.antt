-- ===== src/Auth.antt =====
-- internal/server/auth/auth.go: accounts, the lock after failed logins, and sessions. Texts are lists of bytes; times
-- are nanoseconds. bcrypt, SHA-256, hex, ToLower and the random numbers are given. A flag says that a statement fails.
pub mod Passwords
pub mod Lockout
pub mod Sessions
use server_monitor.Common.{
  ℕ, ◌+◌, ◌*◌, ◌^◌, Bool, true, false, not, ◌&&◌, ◌||◌, ltb, leb, if◌then◌else◌, ◌==◌, Option, none,
  some, List, [], ◌∷◌, any, keep, length, is_some, ite,
}
use server_monitor.Common.Assoc.{lookup, insert}
use server_monitor.Repository.Paths.{Name, Name-discrete, same}

-- What the code uses of bcrypt, crypto/sha256, encoding/hex and strings.
pub record Crypto : Type 0 where
  pub compare_hash : Name → Name → Bool
  pub generate : Name → Option Name
  pub hash_token : Name → Name
  pub encode_hex : Name → Name
  pub decode_hex : Name → Option Name
  pub to_lower : Name → Name

pub record Account : Type 0 where
  pub id : ℕ
  pub password_hash : Name
  pub failed : ℕ
  pub locked_until : Option ℕ

pub record Session : Type 0 where
  pub token : Name
  pub user : ℕ
  pub expires_at : ℕ

-- The tables; the key of an account is its user name.
pub record Tables : Type 0 where
  pub users : List (Name × Account)
  pub sessions : List Session

pub data AuthError : Type 0 where
  err_credentials err_no_user err_expired err_locked err_password err_initialized err_database :
      AuthError

abbrev pub max_failed_logins : ℕ
max_failed_logins = 10

abbrev pub lockout_duration : ℕ
lockout_duration = 15 * 60 * 10 ^ 9

abbrev pub session_ttl : ℕ
session_ttl = 30 * 86400 * 10 ^ 9

abbrev pub min_password_length : ℕ
min_password_length = 12

-- weakPasswordPrefixes
abbrev pub weak_prefixes : List Name
weak_prefixes =
    (b'p' ∷ b'a' ∷ b's' ∷ b's' ∷ b'w' ∷ b'o' ∷ b'r' ∷ b'd' ∷ [])
    ∷ (b'p' ∷ b'a' ∷ b's' ∷ b's' ∷ b'w' ∷ b'0' ∷ b'r' ∷ b'd' ∷ [])
    ∷ (b'l' ∷ b'e' ∷ b't' ∷ b'm' ∷ b'e' ∷ b'i' ∷ b'n' ∷ [])
    ∷ (b'w' ∷ b'e' ∷ b'l' ∷ b'c' ∷ b'o' ∷ b'm' ∷ b'e' ∷ [])
    ∷ (b'a' ∷ b'd' ∷ b'm' ∷ b'i' ∷ b'n' ∷ [])
    ∷ (b'a' ∷ b'd' ∷ b'm' ∷ b'i' ∷ b'n' ∷ b'i' ∷ b's' ∷ b't' ∷ b'r' ∷ b'a' ∷ b't' ∷ b'o' ∷ b'r'
        ∷ [])
    ∷ (b'q' ∷ b'w' ∷ b'e' ∷ b'r' ∷ b't' ∷ b'y' ∷ [])
    ∷ (b'a' ∷ b's' ∷ b'd' ∷ b'f' ∷ b'g' ∷ b'h' ∷ [])
    ∷ (b'z' ∷ b'x' ∷ b'c' ∷ b'v' ∷ b'b' ∷ b'n' ∷ [])
    ∷ (b'i' ∷ b'l' ∷ b'o' ∷ b'v' ∷ b'e' ∷ b'y' ∷ b'o' ∷ b'u' ∷ [])
    ∷ (b'm' ∷ b'o' ∷ b'n' ∷ b'k' ∷ b'e' ∷ b'y' ∷ [])
    ∷ (b'd' ∷ b'r' ∷ b'a' ∷ b'g' ∷ b'o' ∷ b'n' ∷ [])
    ∷ (b's' ∷ b'u' ∷ b'n' ∷ b's' ∷ b'h' ∷ b'i' ∷ b'n' ∷ b'e' ∷ [])
    ∷ (b'p' ∷ b'r' ∷ b'i' ∷ b'n' ∷ b'c' ∷ b'e' ∷ b's' ∷ b's' ∷ [])
    ∷ (b'f' ∷ b'o' ∷ b'o' ∷ b't' ∷ b'b' ∷ b'a' ∷ b'l' ∷ b'l' ∷ [])
    ∷ (b'b' ∷ b'a' ∷ b's' ∷ b'e' ∷ b'b' ∷ b'a' ∷ b'l' ∷ b'l' ∷ [])
    ∷ (b'm' ∷ b'a' ∷ b's' ∷ b't' ∷ b'e' ∷ b'r' ∷ [])
    ∷ (b'c' ∷ b'h' ∷ b'a' ∷ b'n' ∷ b'g' ∷ b'e' ∷ b'm' ∷ b'e' ∷ [])
    ∷ (b's' ∷ b'e' ∷ b'c' ∷ b'r' ∷ b'e' ∷ b't' ∷ [])
    ∷ []

-- strings.HasPrefix
unfoldable pub has_prefix : Name → Name → Bool
has_prefix s [] = true
has_prefix [] (c ∷ cs) = false
has_prefix (b ∷ bs) (c ∷ cs) = b == c && has_prefix bs cs

-- validatePassword
abbrev pub password_refused : Crypto → Name → Bool
password_refused cr p =
    let lower = cr.to_lower p in
    ltb (length p) min_password_length || any (has_prefix lower) weak_prefixes

-- UPDATE users ... WHERE id = $1
unfoldable pub update_user : ℕ → (Account → Account) → List (Name × Account) → List (Name × Account)
update_user id f [] = []
update_user id f ((name, u) ∷ us) =
    let rest = update_user id f us in if u.id == id then (name, f u) ∷ rest else (name, u) ∷ rest

unfoldable pub user_by_id : ℕ → List (Name × Account) → Option (Name × Account)
user_by_id id [] = none
user_by_id id ((name, u) ∷ us) =
    let rest = user_by_id id us in if u.id == id then some (name, u) else rest

abbrev pub is_locked : ℕ → Account → Bool
is_locked now u = elim (u.locked_until) [ none ↦ false | some until ↦ ltb now until ]

-- createSession; no bytes are a source of random numbers that fails.
unfoldable pub create_session :
    Crypto → ℕ → Bool → Option Name → ℕ → Tables → Tables × (Option Name)
create_session cr now fails none user db = (db, none)
create_session cr now fails (some raw) user db =
    if fails || any (λ s. same s.token (cr.hash_token raw)) db.sessions then (db, none) else (
      record db {
        sessions =
            record { token = cr.hash_token raw; user = user; expires_at = now + session_ttl }
            ∷ db.sessions;
      },
      some (cr.encode_hex raw),
    )

-- The statements of Login that may fail: the counter, the lock, the reset and the session.
pub record LoginFaults : Type 0 where
  pub counts : Bool
  pub locks : Bool
  pub resets : Bool
  pub stores : Bool

abbrev pub count_failure : Account → Account
count_failure u = record u { failed = u.failed + 1 }

abbrev pub lock_account : ℕ → Account → Account
lock_account now u = record u { failed = 0; locked_until = some (now + lockout_duration) }

abbrev pub clear_failures : Account → Account
clear_failures u = record u { failed = 0; locked_until = none }

-- Login with a wrong password.
unfoldable pub refuse_login : ℕ → LoginFaults → Account → Tables → Tables × AuthError
refuse_login now f u db =
    let counted = record db { users = update_user u.id count_failure db.users } in
    let locked = record db { users = update_user u.id (lock_account now) counted.users } in
    if f.counts
    then (db, err_credentials)
    else if ltb (u.failed + 1) max_failed_logins
    then (counted, err_credentials)
    else (if f.locks then counted else locked, err_locked)

-- Login with the right password: the tables, and the token if there is one.
unfoldable pub accept_login :
    Crypto → ℕ → LoginFaults → Option Name → Account → Tables → Tables × Option Name
accept_login cr now f raw u db =
    let cleared = record db { users = update_user u.id clear_failures db.users } in
    let unclean = not (u.failed == 0) || is_some u.locked_until in
    create_session cr now f.stores raw u.id (if unclean && not f.resets then cleared else db)

pub data LoginResult : Type 0 where
  granted : ℕ → Name → LoginResult
  refused : AuthError → LoginResult

abbrev pub login_result : ℕ → Tables × Option Name → Tables × LoginResult
login_result id (db, none) = (db, refused err_database)
login_result id (db, some token) = (db, granted id token)

abbrev pub refused_result : Tables × AuthError → Tables × LoginResult
refused_result (db, e) = (db, refused e)

unfoldable pub login_account :
    Crypto → ℕ → LoginFaults → Option Name → Name → Account → Tables → Tables × LoginResult
login_account cr now f raw password u db =
    if is_locked now u
    then (db, refused err_locked)
    else if not (cr.compare_hash u.password_hash password)
    then refused_result (refuse_login now f u db)
    else login_result u.id (accept_login cr now f raw u db)

-- Login, after the query for the user.
unfoldable pub login :
    Crypto → ℕ → LoginFaults → Option Name → Name → Name → Tables → Tables × LoginResult
login cr now f raw username password db = elim (lookup Name-discrete username db.users) [
  | none ↦ (db, refused err_credentials)
  | some u ↦ login_account cr now f raw password u db
]

unfoldable pub session_of : Name → List Session → Option Session
session_of token [] = none
session_of token (s ∷ ss) =
    let rest = session_of token ss in if same s.token token then some s else rest

abbrev pub drop_session : Name → List Session → List Session
drop_session token ss = keep (λ s. not (same s.token token)) ss

-- ResolveSession of a session that is in the table with its user; the deletion of one that is over may fail.
unfoldable pub check_session : ℕ → Bool → Option Session → Tables → Tables × LoginResult
check_session now fails none db = (db, refused err_credentials)
check_session now fails (some s) db =
    let pruned = record db { sessions = drop_session s.token db.sessions } in
    if not (is_some (user_by_id s.user db.users))
    then (db, refused err_credentials)
    else if ltb s.expires_at now
    then (if fails then db else pruned, refused err_expired)
    else (db, granted s.user s.token)

unfoldable pub resolve_session : Crypto → ℕ → Bool → Name → Tables → Tables × LoginResult
resolve_session cr now fails token db = elim (cr.decode_hex token) [
  | none ↦ (db, refused err_credentials)
  | some raw ↦ check_session now fails (session_of (cr.hash_token raw) db.sessions) db
]

-- Logout
unfoldable pub logout : Crypto → Bool → Name → Tables → Tables
logout cr fails token db = elim (cr.decode_hex token) [
  | none ↦ db
  | some raw ↦
      if fails then db else record db { sessions = drop_session (cr.hash_token raw) db.sessions }
]

-- PurgeExpired
unfoldable pub purge_expired : ℕ → Bool → Tables → Tables
purge_expired now fails db =
    if fails
    then db
    else record db { sessions = keep (λ s. not (ltb s.expires_at now)) db.sessions }
