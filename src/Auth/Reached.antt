-- ===== src/Auth/Reached.antt =====
-- The accounts over any sequence of requests, beside the grants that are open: who signed in, and
-- when. A grant closes when its user changes the password or is deleted.
use webhook_inbox.Prelude.{
  ℕ, ◌≤◌, ◌≡◌, Bool, false, not, List, [], ◌∷◌, Option, none, some, if◌then◌else◌, leb, ◌==◌,
  length,
}
use webhook_inbox.Prelude.Sort.{select}
use webhook_inbox.Prelude.Text.{Str, str_eq}
use webhook_inbox.RateLimit.{RateLimiter}
use webhook_inbox.Mongo.Indexed.{Indexed}
use webhook_inbox.Auth.{
  User, Session, Verdict, verified, same_username, same_token, Hasher, Accounts, Drawn,
  resolve_session,
}
use webhook_inbox.Auth.Handlers.{
  Ending, answered, raised, SignIn, signed_in, sign_in, logout, change_password, create_user,
  delete_user,
}

pub record Grant : Type 0 where
  pub user_id : ℕ
  pub at : ℕ

-- The grants behind a sign-in, of the user with the name and the password that were sent, if there is
-- one.
unfoldable pub opened : Option User → ℕ → SignIn → List Grant → List Grant
opened (some user) now (signed_in token csrf_token) gs = record { user_id = user.id; at = now } ∷ gs
opened _ now outcome gs = gs

abbrev pub is_done : Ending → Bool
is_done (answered status cookie) = status == 204
is_done raised = false

-- The grants behind a request that may end those of a user.
unfoldable pub closed : Ending → ℕ → List Grant → List Grant
closed e id gs = if is_done e then select (λ g. not (g.user_id == id)) gs else gs

unfoldable pub closed_sent : Ending → Option ℕ → List Grant → List Grant
unfolding closed
closed_sent e none gs = gs
closed_sent e (some id) gs = closed e id gs

-- The user, if the verdict is on the user's own password.
abbrev pub if_verified : Verdict → User → Option User
if_verified verified user = some user
if_verified _ user = none

module _ (h : Hasher) (users : Indexed User same_username) where
  -- The user with this name, if this is the password behind the stored hash. It is said here without
  -- `authenticate`.
  unfoldable pub owner_of : Str → Str → users.State → Option User
  owner_of username password us = elim (users.find_one (λ u. str_eq u.username username) us) [
    | none ↦ none
    | some user ↦ if_verified (h.verify user.password_hash password) user
  ]

module _ (h : Hasher) (dummy_hash : Str) (users : Indexed User same_username)
    (sessions : Indexed Session same_token) where
  abbrev State : Type 0
  State = Accounts users.State sessions.State

  -- The accounts that requests lead to, from accounts with a user and without a session, with the
  -- open grants. The
  -- database removes sessions that have expired by itself.
  pub data Reached : List Grant → State → Type 0 where
    begins :
        (a : State)
        → 1 ≤ length (users.documents a.users_now)
        → sessions.documents a.sessions_now ≡ []
        → Reached [] a
    signs_in :
        {gs : List Grant} {a : State} (key : Str) (clock : ℕ) (drawn : Drawn) (now : ℕ)
        (username password : Str) (limiter : RateLimiter)
        → Reached gs a
        → Reached
            (opened
              (owner_of h users username password a.users_now)
              now
              (sign_in h dummy_hash users sessions key clock drawn now username password limiter
                a).0
              gs)
            (sign_in h dummy_hash users sessions key clock drawn now username password limiter a).2
    visits :
        {gs : List Grant} {a : State} (cookie : Option Str) (now : ℕ)
        → Reached gs a
        → Reached gs (record a { sessions_now = (resolve_session h users sessions cookie now a).1 })
    signs_out :
        {gs : List Grant} {a : State} (cookie : Option Str)
        → Reached gs a
        → Reached gs (logout h dummy_hash users sessions cookie a)
    changes_password :
        {gs : List Grant} {a : State} (salt : Str) (user : User) (current new : Str)
        → Reached gs a
        → Reached
            (closed
              (change_password h dummy_hash users sessions salt user current new a).0
              user.id
              gs)
            (change_password h dummy_hash users sessions salt user current new a).1
    creates_user :
        {gs : List Grant} {a : State} (id : ℕ) (salt : Str) (now : ℕ) (username password : Str)
        → Reached gs a
        → Reached gs (create_user h dummy_hash users sessions id salt now username password a).1
    deletes_user :
        {gs : List Grant} {a : State} (user : User) (sent : Option ℕ)
        → Reached gs a
        → Reached
            (closed_sent (delete_user h dummy_hash users sessions user sent a).0 sent gs)
            (delete_user h dummy_hash users sessions user sent a).1
    sweeps :
        {gs : List Grant} {a : State} (now : ℕ)
        → Reached gs a
        → Reached gs (record a {
          sessions_now = sessions.delete_many (λ s. leb s.expires_at now) a.sessions_now;
        })
