-- ===== src/Auth/Holder.antt =====
-- Who holds a session has signed in.
use mathlib.Core.Path.{subst}
use webhook_inbox.Prelude.{
  ℕ, ◌+◌, ◌<◌, ◌≡◌, refl, sym, true, not, ◌&&◌, List, [], ◌∷◌, ◌++◌, Option, none, some, leb, ltb,
  ◌==◌, any, arith, Bool-cases, inl, inr, ◌≢◌, Option-cases, All-map, All-append,
}
use webhook_inbox.Prelude.Sort.{select-All}
use webhook_inbox.Prelude.Text.{Str, codes, strip, str_eq}
use webhook_inbox.RateLimit.{RateLimiter, allow, retry_after}
use webhook_inbox.Mongo.Indexed.{Indexed, insert_unique}
use webhook_inbox.Auth.{
  User, Session, Verdict, verified, mismatched, invalid_hash, failed, as_bool, verify_password,
  same_username, same_token, Hasher, Drawn, session_ttl, session_of, resolve_session,
  create_session,
}
use webhook_inbox.Auth.Resolve.{resolve_session-IsProven}
use webhook_inbox.Mongo.Indexed.Places.{IsAmong-All}
use webhook_inbox.Auth.Handlers.{
  known_or_none, throttled, authenticate, sign_in, finish_login, create_user, is_user_create,
  created, started,
}
use webhook_inbox.Auth.Reached.{
  Grant, opened, owner_of, if_verified, Reached, begins, signs_in, visits, signs_out,
  changes_password, creates_user, deletes_user, sweeps,
}
use webhook_inbox.Auth.Granted.{
  grants, IsGranted, Holds, State, visit-Holds, logout-Holds, delete_user-Holds,
  change_password-Holds,
}

opened_throttled :
    (o : Option User) (now seconds : ℕ) (gs : List Grant) → opened o now (throttled seconds) gs ≡ gs
unfolding opened
opened_throttled none now seconds gs = refl
opened_throttled (some user) now seconds gs = refl

still_open :
    (gs : List Grant) (session : Session) (user : User) (now : ℕ)
    → any (grants session) gs ≡ true
    → (user.id == session.user_id) ≡ true
    → now < session.expires_at
    → any (λ g. (g.user_id == user.id) && ltb now (g.at + session_ttl)) gs ≡ true
still_open [] session user now held same fresh = held
still_open (g ∷ gs) session user now held same fresh =
    ground (arith, held, same, fresh, still_open gs session user now)

module _ (h : Hasher) (dummy_hash : Str) (users : Indexed User same_username)
    (sessions : Indexed Session same_token) where
  no_one :
      (v : Verdict) (user : User)
      → known_or_none h dummy_hash users sessions (as_bool v) none ≢ some (some user)
  unfolding known_or_none as_bool
  no_one verified user e = absurd (ground (arith, e))
  no_one mismatched user e = absurd (ground (arith, e))
  no_one invalid_hash user e = absurd (ground (arith, e))
  no_one failed user e = absurd (ground (arith, e))

  one :
      (v : Verdict) (found user : User)
      → known_or_none h dummy_hash users sessions (as_bool v) (some found) ≡ some (some user)
      → if_verified v found ≡ some user
  unfolding known_or_none as_bool
  one verified found user e = ground (arith, e)
  one mismatched found user e = absurd (ground (arith, e))
  one invalid_hash found user e = absurd (ground (arith, e))
  one failed found user e = absurd (ground (arith, e))

  inserted :
      (drawn : Drawn) (now user_id : ℕ) (before after : sessions.State)
      → create_session h users sessions drawn now user_id before ≡ some after
      → sessions.documents after ≡ sessions.documents before ++ session_of h drawn now user_id ∷ []
  unfolding create_session insert_unique
  inserted drawn now user_id before after e =
      let law = sessions.documents-insert_one (session_of h drawn now user_id) before in
      ground (arith, law, e)

  started-Holds :
      (gs : List Grant) (a : State h dummy_hash users sessions) (drawn : Drawn) (now : ℕ)
      (user : User) (o : Option sessions.State)
      → create_session h users sessions drawn now user.id a.sessions_now ≡ o
      → Holds h dummy_hash users sessions gs a
      → Holds h dummy_hash users sessions
          (opened (some user) now (started h dummy_hash users sessions drawn a o).0 gs)
          (started h dummy_hash users sessions drawn a o).1
  unfolding started opened session_of
  started-Holds gs a drawn now user none e held = held
  started-Holds gs a drawn now user (some s) e held =
      subst (IsGranted (record { user_id = user.id; at = now } ∷ gs))
        (sym (inserted drawn now user.id a.sessions_now s e))
        (All-append (λ d. any (grants d) (record { user_id = user.id; at = now } ∷ gs) ≡ true)
          (sessions.documents a.sessions_now) (session_of h drawn now user.id ∷ [])
          (All-map (sessions.documents a.sessions_now) (λ d p. ground (arith, p)) held)
          (ground arith, tt))

  -- Who passes `authenticate` has given the name and the password of that user.
  authenticate-owner_of :
      (username password : Str) (us : users.State) (user : User)
      → authenticate h dummy_hash users sessions username password us ≡ some (some user)
      → owner_of h users username password us ≡ some user
  unfolding authenticate known_or_none verify_password as_bool owner_of
  authenticate-owner_of username password us user e =
      elim (Option-cases (users.find_one (λ u. str_eq u.username username) us)) [
        | inl unknown ↦
            absurd (no_one (h.verify dummy_hash password) user (rw (authenticate, unknown) at e))
        | inr (found, known) ↦
            rw (owner_of, known)
              (one (h.verify found.password_hash password) found user
                (rw (authenticate, known) at e))
      ]

  finish_login-Holds :
      (gs : List Grant) (a : State h dummy_hash users sessions) (drawn : Drawn) (now : ℕ)
      (o : Option (Option User)) (owner : Option User)
      → ((user : User) → o ≡ some (some user) → owner ≡ some user)
      → Holds h dummy_hash users sessions gs a
      → Holds h dummy_hash users sessions
          (opened owner now (finish_login h dummy_hash users sessions drawn now a o).0 gs)
          (finish_login h dummy_hash users sessions drawn now a o).1
  unfolding finish_login opened
  finish_login-Holds gs a drawn now none none own held = held
  finish_login-Holds gs a drawn now none (some other) own held = held
  finish_login-Holds gs a drawn now (some none) none own held = held
  finish_login-Holds gs a drawn now (some none) (some other) own held = held
  finish_login-Holds gs a drawn now (some (some user)) owner own held = rw (own user refl) (
      started-Holds gs a drawn now user
        (create_session h users sessions drawn now user.id a.sessions_now) refl held)

  sign_in-Holds :
      (gs : List Grant) (a : State h dummy_hash users sessions) (key : Str) (clock : ℕ)
      (drawn : Drawn) (now : ℕ) (username password : Str) (limiter : RateLimiter)
      → Holds h dummy_hash users sessions gs a
      → Holds h dummy_hash users sessions
          (opened
            (owner_of h users username password a.users_now)
            now
            (sign_in h dummy_hash users sessions key clock drawn now username password limiter a).0
            gs)
          (sign_in h dummy_hash users sessions key clock drawn now username password limiter a).2
  unfolding sign_in
  sign_in-Holds gs a key clock drawn now username password limiter held =
      elim (Bool-cases (allow (codes "login:" ++ key) clock limiter).0) [
        | inl allowed ↦ rw allowed (
            finish_login-Holds gs a drawn now
              (authenticate h dummy_hash users sessions username password a.users_now)
              (owner_of h users username password a.users_now)
              (authenticate-owner_of username password a.users_now) held)
        | inr denied ↦ rw denied (
            subst (λ l. IsGranted l (sessions.documents a.sessions_now))
              (sym (
                opened_throttled (owner_of h users username password a.users_now) now
                  (retry_after (codes "login:" ++ key)
                    (allow (codes "login:" ++ key) clock limiter).1)
                  gs))
              held)
      ]

  created-Holds :
      (gs : List Grant) (a : State h dummy_hash users sessions) (o : Option users.State)
      → Holds h dummy_hash users sessions gs a
      → Holds h dummy_hash users sessions gs (created h dummy_hash users sessions a o).1
  unfolding created
  created-Holds gs a none held = held
  created-Holds gs a (some us) held = held

  create_user-Holds :
      (gs : List Grant) (a : State h dummy_hash users sessions) (id : ℕ) (salt : Str) (now : ℕ)
      (username password : Str)
      → Holds h dummy_hash users sessions gs a
      → Holds h dummy_hash users sessions gs
          (create_user h dummy_hash users sessions id salt now username password a).1
  unfolding create_user
  create_user-Holds gs a id salt now username password held =
      elim (Bool-cases (is_user_create (strip username) password)) [
        | inr bad ↦ rw bad held
        | inl fine ↦ rw fine (
            created-Holds gs a
              (users.insert_one
                (record {
                  id = id;
                  username = strip username;
                  password_hash = h.hash salt password;
                  created_at = now;
                })
                a.users_now)
              held)
      ]

  Reached-Holds :
      (gs : List Grant) (a : State h dummy_hash users sessions)
      → Reached h dummy_hash users sessions gs a
      → Holds h dummy_hash users sessions gs a
  Reached-Holds _ _ (begins a some_user none_yet) = rw none_yet tt
  Reached-Holds _ _ (signs_in {gs} {a} key clock drawn now username password limiter r) =
      sign_in-Holds gs a key clock drawn now username password limiter (Reached-Holds gs a r)
  Reached-Holds _ _ (visits {gs} {a} cookie now r) =
      visit-Holds h dummy_hash users sessions gs a cookie now (Reached-Holds gs a r)
  Reached-Holds _ _ (signs_out {gs} {a} cookie r) =
      logout-Holds h dummy_hash users sessions gs a cookie (Reached-Holds gs a r)
  Reached-Holds _ _ (changes_password {gs} {a} salt user current new r) =
      change_password-Holds h dummy_hash users sessions gs a salt user current new
        (Reached-Holds gs a r)
  Reached-Holds _ _ (creates_user {gs} {a} id salt now username password r) =
      create_user-Holds gs a id salt now username password (Reached-Holds gs a r)
  Reached-Holds _ _ (deletes_user {gs} {a} user sent r) =
      delete_user-Holds h dummy_hash users sessions gs a user sent (Reached-Holds gs a r)
  Reached-Holds _ _ (sweeps {gs} {a} now r) = rw sessions.documents-delete_many (
      select-All (λ s. any (grants s) gs ≡ true) (λ s. not (leb s.expires_at now))
        (sessions.documents a.sessions_now) (Reached-Holds gs a r))

  -- After any sequence of sign-ins, visits, sign-outs, changes of passwords and changes of users,
  -- a cookie is resolved to a user only if that user signed in with the right password within the
  -- last seven days, and has neither changed the password nor been deleted since.
  pub Reached-granted :
      (gs : List Grant) (a : State h dummy_hash users sessions) (cookie : Option Str) (now : ℕ)
      (session : Session) (user : User)
      → Reached h dummy_hash users sessions gs a
      → (resolve_session h users sessions cookie now a).0 ≡ some (session, user)
      → any (λ g. (g.user_id == user.id) && ltb now (g.at + session_ttl)) gs ≡ true
  Reached-granted gs a cookie now session user reached resolved =
      let proof = resolve_session-IsProven h users sessions cookie now a session user resolved in
      still_open gs session user now
        (IsAmong-All (λ s. any (grants s) gs ≡ true) proof.stored (Reached-Holds gs a reached))
        proof.present.matched proof.in_time
