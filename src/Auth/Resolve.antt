-- ===== src/Auth/Resolve.antt =====
-- What a session that is resolved stands for, and how long a new one lasts.
use mathlib.Core.Path.{subst}
use webhook_inbox.Prelude.{
  ℕ, ◌+◌, ◌<◌, ◌≡◌, refl, sym, ap, ◌∙◌, Bool, false, List, [], ◌∷◌, ◌++◌, Option, none, some,
  if◌then◌else◌, is_empty, leb, ◌==◌, any, arith, Bool-cases, inl, inr,
}
use webhook_inbox.Prelude.Text.{Str, str_eq, str_eq_iff, str_eq_refl}
use webhook_inbox.Mongo.Lists.{find_first}
use webhook_inbox.Mongo.Indexed.Places.{IsAmong, find_first-IsAmong}
use webhook_inbox.Mongo.Indexed.{Indexed, documents_in, insert_unique}
use webhook_inbox.Auth.{
  User, Session, same_username, same_token, Hasher, Accounts, Drawn, session_ttl, session_of,
  create_session, resolve_session, resolve_found, with_user,
}

find_first_fresh :
    (d : Session) (ds : List Session)
    → any (same_token d) ds ≡ false
    → find_first (λ s. str_eq s.token_hash d.token_hash) (ds ++ d ∷ []) ≡ some d
unfolding find_first
find_first_fresh d [] fresh = rw str_eq_refl refl
find_first_fresh d (e ∷ ds) fresh = ground (
  arith,
  fresh,
  find_first_fresh d ds,
  str_eq_iff d.token_hash e.token_hash,
  str_eq_iff e.token_hash d.token_hash,
)

-- A session that was inserted is found by its hash.
find_first_inserted :
    (d : Session) (ds after : List Session)
    → insert_unique same_token d ds ≡ some after
    → find_first (λ s. str_eq s.token_hash d.token_hash) after ≡ some d
unfolding insert_unique
find_first_inserted d ds after made = elim (Bool-cases (any (same_token d) ds)) [
  | inl taken ↦ absurd (ground (arith, made, taken))
  | inr fresh ↦
      let same : ds ++ d ∷ [] ≡ after = ground (arith, made, fresh) in
      subst (λ l. find_first (λ s. str_eq s.token_hash d.token_hash) l ≡ some d) same
        (find_first_fresh d ds fresh)
]

-- What a resolved cookie proves: a token whose hash is stored with a session that has not expired,
-- of a user who is there.
pub record IsProven (h : Hasher) (ss : List Session) (us : List User) (now : ℕ)
    (cookie : Option Str) (session : Session) (user : User) : Type 0 where
  pub token : Str
  pub sent : cookie ≡ some token
  pub stored : IsAmong (λ s. str_eq s.token_hash (h.digest token)) ss session
  pub in_time : now < session.expires_at
  pub present : IsAmong (λ u. u.id == session.user_id) us user

module _ (h : Hasher) (users : Indexed User same_username)
    (sessions : Indexed Session same_token) where
  with_user-some :
      (s : Session) (o : Option User) (session : Session) (user : User)
      → with_user h users sessions s o ≡ some (session, user)
      → (s ≡ session) × (o ≡ some user)
  unfolding with_user
  with_user-some s none session user e = absurd (ground (arith, e))
  with_user-some s (some u) session user e = (cc e, cc e)

  resolve_found-some :
      (now : ℕ) (a : Accounts users.State sessions.State) (o : Option Session) (session : Session)
      (user : User)
      → (resolve_found h users sessions now a o).0 ≡ some (session, user)
      → (o ≡ some session)
        × (now < session.expires_at)
        × (find_first (λ u. u.id == session.user_id) (users.documents a.users_now) ≡ some user)
  unfolding resolve_found with_user
  resolve_found-some now a none session user e = absurd (ground (arith, e))
  resolve_found-some now a (some s) session user e = elim (Bool-cases (leb s.expires_at now)) [
    | inl late ↦ absurd (ground (arith, e, late))
    | inr fresh ↦
        let (same, found) =
          with_user-some s (users.find_one (λ u. u.id == s.user_id) a.users_now) session user
            (ground (arith, e, fresh)) in
        let timely : now < s.expires_at = ground (arith, fresh) in
        (
          ap some same,
          subst (λ x. now < x.expires_at) same timely,
          subst (λ x. find_first (λ u. u.id == x.user_id) (users.documents a.users_now) ≡ some user)
              same (sym (users.documents-find_one (λ u. u.id == s.user_id) a.users_now) ∙ found),
        )
  ]

  -- A cookie is resolved to a session and a user only if the hash of its token is stored with that
  -- session, the session has not expired, and its user is there.
  pub resolve_session-IsProven :
      (cookie : Option Str) (now : ℕ) (a : Accounts users.State sessions.State) (session : Session)
      (user : User)
      → (resolve_session h users sessions cookie now a).0 ≡ some (session, user)
      → IsProven h
          (sessions.documents a.sessions_now)
          (users.documents a.users_now)
          now
          cookie
          session
          user
  unfolding resolve_session
  resolve_session-IsProven none now a session user e = absurd (ground (arith, e))
  resolve_session-IsProven (some token) now a session user e = elim (Bool-cases (is_empty token)) [
    | inl empty ↦ absurd (ground (arith, e, empty))
    | inr filled ↦
        let test : Session → Bool = λ s. str_eq s.token_hash (h.digest token) in
        let (found, timely, present) =
          resolve_found-some now a (sessions.find_one test a.sessions_now) session user
            (rw filled at e) in
        record {
          token = token;
          sent = refl;
          stored =
              find_first-IsAmong test (sessions.documents a.sessions_now) session
                (sym (sessions.documents-find_one test a.sessions_now) ∙ found);
          in_time = timely;
          present =
              find_first-IsAmong (λ u. u.id == session.user_id) (users.documents a.users_now) user
                present;
        }
  ]

  -- The session that a sign-in stores resolves to its user until it expires, and to nothing from
  -- then on: where its token is not empty, and the user is there.
  pub resolve_session-create_session :
      (drawn : Drawn) (start now : ℕ) (user_id : ℕ) (user : User) (us : users.State)
      (before after : sessions.State)
      → is_empty drawn.token ≡ false
      → find_first (λ u. u.id == user_id) (users.documents us) ≡ some user
      → create_session h users sessions drawn start user_id before ≡ some after
      → (resolve_session h users sessions
          (some drawn.token)
          now
          (record { users_now = us; sessions_now = after })).0
        ≡ (if leb (start + session_ttl) now
            then none
            else some (session_of h drawn start user_id, user))
  unfolding resolve_session create_session resolve_found session_of with_user
  resolve_session-create_session drawn start now user_id user us before after filled there made =
      let session = session_of h drawn start user_id in
      let found : sessions.find_one (λ s. str_eq s.token_hash (h.digest drawn.token)) after
          ≡ some session =
        sessions.documents-find_one (λ s. str_eq s.token_hash (h.digest drawn.token)) after
        ∙ find_first_inserted session (sessions.documents before) (sessions.documents after) (
            sym (sessions.documents-insert_one session before)
            ∙ ap (documents_in sessions.documents) made) in
      let present : users.find_one (λ u. u.id == user_id) us ≡ some user =
        users.documents-find_one (λ u. u.id == user_id) us ∙ there in
      rw (filled, found, present) (ground arith)
