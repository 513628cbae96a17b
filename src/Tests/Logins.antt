-- ===== src/Tests/Logins.antt =====
-- The accounts of internal/server/auth/auth.go at concrete inputs.
use server_monitor.Common.{◌≡◌, refl, arith, false, none, some, [], ◌∷◌, ◌+◌, ◌≤◌, ℕ_discrete}
use server_monitor.Common.Assoc.{lookup}
use server_monitor.Repository.Paths.{Name, Name-discrete, same}
use server_monitor.Auth.{
  Crypto, Account, Tables, max_failed_logins, create_session, user_by_id, resolve_session,
  check_session, session_of, update_user, has_prefix,
}
use server_monitor.Auth.Passwords.{change_password, change_account, replace_password, set_password}
use server_monitor.Auth.Lockout.{Attempt, guesses, guesses-le}
use server_monitor.Auth.Sessions.{change_password-revokes}

-- A hash is its text, and a token its bytes.
abbrev plain_crypto : Crypto
plain_crypto = record {
  compare_hash = λ h p. same h p;
  generate = λ p. some p;
  hash_token = λ t. t;
  encode_hex = λ t. t;
  decode_hex = λ t. some t;
  to_lower = λ p. p;
}

abbrev root_name : Name
root_name = 114 ∷ []

abbrev root_secret : Name
root_secret = 1 ∷ 2 ∷ 3 ∷ []

abbrev long_secret : Name
long_secret = 1 ∷ 2 ∷ 3 ∷ 4 ∷ 5 ∷ 6 ∷ 7 ∷ 8 ∷ 9 ∷ 10 ∷ 11 ∷ 12 ∷ []

abbrev root_account : Account
root_account = record { id = 1; password_hash = root_secret; failed = 8; locked_until = none }

abbrev accounts : Tables
accounts = record {
  users = (root_name, root_account) ∷ [];
  sessions = record { token = 5 ∷ []; user = 1; expires_at = 100 } ∷ [];
}

abbrev guess : Attempt
guess = record { at = 50; password = 9 ∷ []; random = some (6 ∷ []) }

guesses-le_example :
    guesses plain_crypto root_secret root_name (guess ∷ guess ∷ guess ∷ []) accounts + 8
    ≤ max_failed_logins
unfolding Name-discrete lookup ℕ_discrete
guesses-le_example =
    guesses-le plain_crypto root_secret root_name 50 (guess ∷ guess ∷ guess ∷ []) root_account
      accounts refl (omega arith) refl
      (
        ((omega arith, omega arith), refl),
        (((omega arith, omega arith), refl), (((omega arith, omega arith), refl), tt)),
      )

abbrev new_token : Name
new_token = 7 ∷ []

change_password-revokes_example :
    plain_crypto.hash_token new_token ≡ plain_crypto.hash_token new_token
unfolding change_password change_account replace_password create_session set_password user_by_id
    resolve_session check_session session_of Name-discrete ℕ_discrete update_user has_prefix
change_password-revokes_example =
    change_password-revokes plain_crypto 10 false new_token 1 root_secret long_secret accounts 1
      new_token 20 false new_token new_token new_token refl refl refl
