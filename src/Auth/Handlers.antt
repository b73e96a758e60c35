-- ===== src/Auth/Handlers.antt =====
-- The handlers that change sessions and users: app/api/auth.py, the settings pages of
-- app/web/routes.py, the checks of app/models/user.py, and seed_admin of app/auth.py. What is
-- rendered around an answer is left out.
use webhook_inbox.Prelude.{
  ℕ, Bool, true, false, ◌&&◌, ◌||◌, ◌++◌, Option, none, some, if◌then◌else◌, is_empty, leb, ltb,
  ◌==◌, length, all,
}
use webhook_inbox.Prelude.Text.{Str, codes, str_eq, strip}
use webhook_inbox.Mongo.Indexed.{Indexed}
use webhook_inbox.RateLimit.{RateLimiter, allow, retry_after}
use webhook_inbox.Auth.{
  User, Session, same_username, same_token, Hasher, Accounts, Drawn, verify_password,
  create_session, destroy_session, destroy_user_sessions,
}

-- The end of a request: the answer's status, with the token of the cookie that it sets, or an
-- exception.
pub data Ending : Type 0 where
  answered : (status : ℕ) (cookie : Option Str) → Ending
  raised : Ending

-- What a sign-in comes to.
pub data SignIn : Type 0 where
  throttled : (seconds : ℕ) → SignIn
  refused : SignIn
  signed_in : (token csrf_token : Str) → SignIn
  broken : SignIn

-- The answers of `login` and of `login_submit`.
unfoldable pub login_answer : SignIn → Ending
login_answer (throttled seconds) = answered 429 none
login_answer refused = answered 401 none
login_answer (signed_in token csrf_token) = answered 200 (some token)
login_answer broken = raised

unfoldable pub submit_answer : SignIn → Ending
submit_answer (throttled seconds) = answered 429 none
submit_answer refused = answered 200 none
submit_answer (signed_in token csrf_token) = answered 303 (some token)
submit_answer broken = raised

-- USERNAME_PATTERN
abbrev is_username_char : ℕ → Bool
is_username_char c =
    (leb b'A' c && leb c b'Z')
    || (leb b'a' c && leb c b'z')
    || (leb b'0' c && leb c b'9')
    || (c == b'.')
    || (c == b'_')
    || (c == b'-')

abbrev pub min_password_length : ℕ
min_password_length = 8

-- UserCreate
unfoldable pub is_user_create : Str → Str → Bool
is_user_create username password =
    leb 3 (length username)
    && leb (length username) 32
    && all is_username_char username
    && leb min_password_length (length password)
    && leb (length password) 256

-- What becomes of a change: the answer, and the accounts then.
abbrev pub Changed : Type 0 → Type 0 → Type 0
Changed U S = Ending × Accounts U S

module _ (h : Hasher) (dummy_hash : Str) (users : Indexed User same_username)
    (sessions : Indexed Session same_token) where
  abbrev State : Type 0
  State = Accounts users.State sessions.State

  -- The unknown name costs a verification as well. `none` is an error that is not handled.
  unfoldable pub known_or_none : Option Bool → Option User → Option (Option User)
  known_or_none none user = none
  known_or_none (some true) user = some user
  known_or_none (some false) user = some none

  unfoldable pub authenticate : Str → Str → users.State → Option (Option User)
  unfolding known_or_none
  authenticate username password s = elim (users.find_one (λ u. str_eq u.username username) s) [
    | none ↦ known_or_none (verify_password h password dummy_hash) none
    | some user ↦ known_or_none (verify_password h password user.password_hash) (some user)
  ]

  unfoldable pub started : Drawn → State → Option sessions.State → SignIn × State
  started drawn a none = (broken, a)
  started drawn a (some s) = (signed_in drawn.token drawn.csrf_token, record a { sessions_now = s })

  -- The part of `login` behind `authenticate`.
  unfoldable pub finish_login : Drawn → ℕ → State → Option (Option User) → SignIn × State
  unfolding started
  finish_login drawn now a none = (broken, a)
  finish_login drawn now a (some none) = (refused, a)
  finish_login drawn now a (some (some user)) =
      started drawn a (create_session h users sessions drawn now user.id a.sessions_now)

  -- login and login_submit, from the limiter on. `clock` is time.monotonic.
  unfoldable pub sign_in :
      Str → ℕ → Drawn → ℕ → Str → Str → RateLimiter → State → SignIn × RateLimiter × State
  unfolding authenticate finish_login
  sign_in key clock drawn now username password limiter a =
      let bucket = codes "login:" ++ key in
      let (allowed, after) = allow bucket clock limiter in
      let (outcome, accounts) =
        finish_login drawn now a (authenticate username password a.users_now) in
      if allowed
      then (outcome, after, accounts)
      else (throttled (retry_after bucket after), after, a)

  -- logout and logout_submit
  unfoldable pub logout : Option Str → State → State
  logout cookie a = record a {
    sessions_now = destroy_session h users sessions cookie a.sessions_now;
  }

  unfoldable pub changed_password : ℕ → State → Option users.State → Ending × State
  changed_password user_id a none = (raised, a)
  changed_password user_id a (some s) = (
    answered 204 none,
    record {
      users_now = s;
      sessions_now = destroy_user_sessions h users sessions user_id a.sessions_now;
    },
  )

  -- The part of `change_password` behind the check of the current password.
  unfoldable pub change_verified : Str → User → Str → State → Option Bool → Ending × State
  unfolding changed_password
  change_verified salt user new_password a none = (raised, a)
  change_verified salt user new_password a (some false) = (answered 200 none, a)
  change_verified salt user new_password a (some true) =
      if ltb (length new_password) 8
      then (answered 200 none, a)
      else changed_password user.id a (
          users.update_one (λ u. u.id == user.id)
            (λ u. record u { password_hash = h.hash salt new_password }) a.users_now)

  -- change_password, of the user of the session.
  unfoldable pub change_password : Str → User → Str → Str → State → Ending × State
  unfolding change_verified
  change_password salt user current_password new_password a =
      change_verified salt user new_password a
        (verify_password h current_password user.password_hash)

  unfoldable pub created : State → Option users.State → Ending × State
  created a none = (answered 200 none, a)
  created a (some s) = (answered 204 none, record a { users_now = s })

  unfoldable pub create_user : ℕ → Str → ℕ → Str → Str → State → Ending × State
  unfolding created is_user_create
  create_user id salt now username password a =
      if is_user_create (strip username) password
      then created a (
          users.insert_one
            (record {
              id = id;
              username = strip username;
              password_hash = h.hash salt password;
              created_at = now;
            })
            a.users_now)
      else (answered 200 none, a)

  -- delete_user, of the user of the session and the id that was sent: `none` is no ObjectId.
  unfoldable pub delete_user : User → Option ℕ → State → Ending × State
  delete_user user none a = (answered 404 none, a)
  delete_user user (some id) a =
      if id == user.id
      then (answered 400 none, a)
      else if leb (users.count_documents a.users_now) 1
      then (answered 400 none, a)
      else (
        answered 204 none,
        record {
          users_now = users.delete_one (λ u. u.id == id) a.users_now;
          sessions_now = destroy_user_sessions h users sessions id a.sessions_now;
        },
      )

  -- seed_admin, with the password that secrets would draw.
  unfoldable pub seed_admin : ℕ → Str → Str → ℕ → Str → Str → users.State → Option users.State
  seed_admin id salt generated now username password s =
      if ltb 0 (users.count_documents s)
      then some s
      else users.insert_one
          (record {
            id = id;
            username = username;
            password_hash = h.hash salt (if is_empty password then generated else password);
            created_at = now;
          })
          s
