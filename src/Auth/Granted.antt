-- ===== src/Auth/Granted.antt =====
-- What a request leaves of the sessions, the open grants still stand for.
use webhook_inbox.Prelude.{
  ℕ, ◌+◌, ◌≡◌, Bool, true, false, not, ◌&&◌, List, [], ◌∷◌, Option, none, some, is_empty, leb, ltb,
  ◌==◌, any, arith, Bool-cases, inl, inr, length, All,
}
use webhook_inbox.Prelude.Sort.{select}
use webhook_inbox.Prelude.Text.{Str, str_eq}
use webhook_inbox.Mongo.Indexed.{Indexed}
use webhook_inbox.Mongo.Indexed.Kept.{remove_first-All}
use webhook_inbox.Auth.{
  User, Session, same_username, same_token, Hasher, Accounts, session_ttl, resolve_session,
  resolve_found, destroy_session, destroy_user_sessions, verify_password,
}
use webhook_inbox.Auth.Handlers.{
  logout, change_password, change_verified, changed_password, delete_user,
}
use webhook_inbox.Auth.Reached.{Grant, closed, closed_sent}

-- A grant of the session's user that began when the session did.
abbrev pub grants : Session → Grant → Bool
grants s g = (g.user_id == s.user_id) && ((g.at + session_ttl) == s.expires_at)

abbrev pub IsGranted : List Grant → List Session → Type 0
IsGranted gs = All (λ s. any (grants s) gs ≡ true)

any-select :
    (id : ℕ) (s : Session) (gs : List Grant)
    → (s.user_id == id) ≡ false
    → any (grants s) gs ≡ true
    → any (grants s) (select (λ g. not (g.user_id == id)) gs) ≡ true
any-select id s [] other h = h
any-select id s (g ∷ gs) other h = ground (arith, other, h, any-select id s gs other)

-- When the sessions of a user are gone, the grants of the user may go too.
closed-IsGranted :
    (id : ℕ) (gs : List Grant) (ss : List Session)
    → IsGranted gs ss
    → IsGranted (select (λ g. not (g.user_id == id)) gs) (select (λ s. not (s.user_id == id)) ss)
closed-IsGranted id gs [] h = tt
closed-IsGranted id gs (s ∷ ss) (p, h) = elim (Bool-cases (s.user_id == id)) [
  | inl gone ↦ rw gone (closed-IsGranted id gs ss h)
  | inr kept ↦ rw kept (any-select id s gs kept p, closed-IsGranted id gs ss h)
]

module _ (h : Hasher) (dummy_hash : Str) (users : Indexed User same_username)
    (sessions : Indexed Session same_token) where
  abbrev pub State : Type 0
  State = Accounts users.State sessions.State

  abbrev pub Holds : List Grant → State → Type 0
  Holds gs a = IsGranted gs (sessions.documents a.sessions_now)

  resolve_found-Holds :
      (gs : List Grant) (a : State) (now : ℕ) (o : Option Session)
      → Holds gs a
      → IsGranted gs (sessions.documents (resolve_found h users sessions now a o).1)
  unfolding resolve_found
  resolve_found-Holds gs a now none held = held
  resolve_found-Holds gs a now (some s) held = elim (Bool-cases (leb s.expires_at now)) [
    | inl late ↦
        rw (late, sessions.documents-delete_one)
          (remove_first-All (λ s. any (grants s) gs ≡ true) (λ d. d.id == s.id)
            (sessions.documents a.sessions_now) held)
    | inr fresh ↦ rw fresh held
  ]

  pub visit-Holds :
      (gs : List Grant) (a : State) (cookie : Option Str) (now : ℕ)
      → Holds gs a
      → IsGranted gs (sessions.documents (resolve_session h users sessions cookie now a).1)
  unfolding resolve_session
  visit-Holds gs a none now held = held
  visit-Holds gs a (some token) now held = elim (Bool-cases (is_empty token)) [
    | inl empty ↦ rw empty held
    | inr filled ↦ rw filled (
        resolve_found-Holds gs a now
          (sessions.find_one (λ s. str_eq s.token_hash (h.digest token)) a.sessions_now) held)
  ]

  pub logout-Holds :
      (gs : List Grant) (a : State) (cookie : Option Str)
      → Holds gs a
      → Holds gs (logout h dummy_hash users sessions cookie a)
  unfolding logout destroy_session
  logout-Holds gs a none held = held
  logout-Holds gs a (some token) held = elim (Bool-cases (is_empty token)) [
    | inl empty ↦ rw empty held
    | inr filled ↦
        rw (filled, sessions.documents-delete_one)
          (remove_first-All (λ s. any (grants s) gs ≡ true)
            (λ d. str_eq d.token_hash (h.digest token)) (sessions.documents a.sessions_now) held)
  ]

  destroyed-Holds :
      (gs : List Grant) (a : State) (id : ℕ)
      → Holds gs a
      → IsGranted
          (select (λ g. not (g.user_id == id)) gs)
          (sessions.documents (destroy_user_sessions h users sessions id a.sessions_now))
  unfolding destroy_user_sessions
  destroyed-Holds gs a id held =
      rw sessions.documents-delete_many
        (closed-IsGranted id gs (sessions.documents a.sessions_now) held)

  changed_password-Holds :
      (gs : List Grant) (a : State) (id : ℕ) (o : Option users.State)
      → Holds gs a
      → Holds
          (closed (changed_password h dummy_hash users sessions id a o).0 id gs)
          (changed_password h dummy_hash users sessions id a o).1
  unfolding changed_password closed
  changed_password-Holds gs a id none held = held
  changed_password-Holds gs a id (some us) held = destroyed-Holds gs a id held

  change_verified-Holds :
      (gs : List Grant) (a : State) (salt : Str) (user : User) (new : Str) (o : Option Bool)
      → Holds gs a
      → Holds
          (closed (change_verified h dummy_hash users sessions salt user new a o).0 user.id gs)
          (change_verified h dummy_hash users sessions salt user new a o).1
  unfolding change_verified closed
  change_verified-Holds gs a salt user new none held = held
  change_verified-Holds gs a salt user new (some false) held = held
  change_verified-Holds gs a salt user new (some true) held =
      elim (Bool-cases (ltb (length new) 8)) [
        | inl short ↦ rw short held
        | inr long ↦ rw long (
            changed_password-Holds gs a user.id
              (users.update_one (λ u. u.id == user.id)
                (λ u. record u { password_hash = h.hash salt new }) a.users_now)
              held)
      ]

  pub delete_user-Holds :
      (gs : List Grant) (a : State) (user : User) (sent : Option ℕ)
      → Holds gs a
      → Holds
          (closed_sent (delete_user h dummy_hash users sessions user sent a).0 sent gs)
          (delete_user h dummy_hash users sessions user sent a).1
  unfolding delete_user closed_sent closed
  delete_user-Holds gs a user none held = held
  delete_user-Holds gs a user (some id) held = elim (Bool-cases (id == user.id)) [
    | inl own ↦ rw own held
    | inr other ↦ rw other (elim (Bool-cases (leb (users.count_documents a.users_now) 1)) [
      | inl last ↦ rw last held
      | inr several ↦ rw several (destroyed-Holds gs a id held)
    ])
  ]

  pub change_password-Holds :
      (gs : List Grant) (a : State) (salt : Str) (user : User) (current new : Str)
      → Holds gs a
      → Holds
          (closed
            (change_password h dummy_hash users sessions salt user current new a).0
            user.id
            gs)
          (change_password h dummy_hash users sessions salt user current new a).1
  unfolding change_password
  change_password-Holds gs a salt user current new held =
      change_verified-Holds gs a salt user new (verify_password h current user.password_hash) held
