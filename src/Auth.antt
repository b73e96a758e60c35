-- ===== src/Auth.antt =====
-- app/auth.py: sessions and passwords, over the collections of users and of sessions. The tokens
-- that `secrets` draws, and the clock, are arguments. Times are counted in microseconds.
pub mod Handlers
pub mod Resolve
pub mod Ended
pub mod Reached
pub mod Granted
pub mod Holder
pub mod Remaining
pub mod Guard
mod Tests
use webhook_inbox.Prelude.{
  ℕ, ◌+◌, ◌≡◌, Bool, true, false, List, [], ◌∷◌, Option, none, some, if◌then◌else◌, is_empty, leb,
  ◌==◌,
}
use webhook_inbox.Prelude.Text.{Str, codes, str_eq}
use webhook_inbox.Mongo.Indexed.{Indexed}

-- A document of the `users` collection, without `updated_at`, which nothing reads.
pub record User : Type 0 where
  pub id : ℕ
  pub username : Str
  pub password_hash : Str
  pub created_at : ℕ

pub record Session : Type 0 where
  pub id : ℕ
  pub token_hash : Str
  pub user_id : ℕ
  pub csrf_token : Str
  pub created_at : ℕ
  pub expires_at : ℕ

-- The unique indexes of both collections.
abbrev pub same_username : User → User → Bool
same_username a b = str_eq a.username b.username

abbrev pub same_token : Session → Session → Bool
same_token a b = str_eq a.token_hash b.token_hash

-- What PasswordHasher.verify does: it returns True, raises one of the two errors that the program
-- handles, or another one.
pub data Verdict : Type 0 where
  verified mismatched invalid_hash failed : Verdict

-- argon2's PasswordHasher and hashlib.sha256(token.encode()).hexdigest(). A hash is drawn with a
-- salt, and its password verifies against it.
pub record Hasher : Type 0 where
  pub hash : Str → Str → Str
  pub verify : Str → Str → Verdict
  pub digest : Str → Str
  pub verify-hash : (salt password : Str) → verify (hash salt password) password ≡ verified

-- `none` is an error that is not handled.
unfoldable pub as_bool : Verdict → Option Bool
as_bool verified = some true
as_bool mismatched = some false
as_bool invalid_hash = some false
as_bool failed = none

-- SESSION_TTL: seven days
abbrev pub session_ttl : ℕ
session_ttl = 604_800_000_000

-- What a user and a session are kept in.
pub record Accounts (U S : Type 0) : Type 0 where
  pub users_now : U
  pub sessions_now : S

-- What secrets and the driver draw for one session.
pub record Drawn : Type 0 where
  pub id : ℕ
  pub token : Str
  pub csrf_token : Str

module _ (h : Hasher) where
  unfoldable pub verify_password : Str → Str → Option Bool
  unfolding as_bool
  verify_password password password_hash = as_bool (h.verify password_hash password)

  -- The document of a new session: only the hash of its token.
  unfoldable pub session_of : Drawn → ℕ → ℕ → Session
  session_of drawn now user_id = record {
    id = drawn.id;
    token_hash = h.digest drawn.token;
    user_id = user_id;
    csrf_token = drawn.csrf_token;
    created_at = now;
    expires_at = now + session_ttl;
  }

module _ (h : Hasher) (users : Indexed User same_username)
    (sessions : Indexed Session same_token) where
  -- `none` is a DuplicateKeyError, of the index on the hash of the token.
  unfoldable pub create_session : Drawn → ℕ → ℕ → sessions.State → Option sessions.State
  unfolding session_of
  create_session drawn now user_id s = sessions.insert_one (session_of h drawn now user_id) s

  with_user : Session → Option User → Option (Session × User)
  with_user session none = none
  with_user session (some user) = some (session, user)

  -- The part of `resolve_session` behind the session that was found.
  resolve_found :
      ℕ
      → Accounts users.State sessions.State
      → Option Session
      → Option (Session × User) × sessions.State
  unfolding with_user
  resolve_found now a none = (none, a.sessions_now)
  resolve_found now a (some session) =
      if leb session.expires_at now
      then (none, sessions.delete_one (λ s. s.id == session.id) a.sessions_now)
      else (
        with_user session (users.find_one (λ u. u.id == session.user_id) a.users_now),
        a.sessions_now,
      )

  -- The session and the user of a cookie, and the sessions then.
  unfoldable pub resolve_session :
      Option Str
      → ℕ
      → Accounts users.State sessions.State
      → Option (Session × User) × sessions.State
  unfolding resolve_found
  resolve_session none now a = (none, a.sessions_now)
  resolve_session (some token) now a =
      if is_empty token
      then (none, a.sessions_now)
      else resolve_found now a
          (sessions.find_one (λ s. str_eq s.token_hash (h.digest token)) a.sessions_now)

  unfoldable pub destroy_session : Option Str → sessions.State → sessions.State
  destroy_session none s = s
  destroy_session (some token) s =
      if is_empty token
      then s
      else sessions.delete_one (λ d. str_eq d.token_hash (h.digest token)) s

  unfoldable pub destroy_user_sessions : ℕ → sessions.State → sessions.State
  destroy_user_sessions user_id s = sessions.delete_many (λ d. d.user_id == user_id) s
