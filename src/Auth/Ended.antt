-- ===== src/Auth/Ended.antt =====
-- Which sessions end: those of a user whose password changes or who is deleted, and the one that is
-- signed out.
use mathlib.Core.Path.{subst}
use webhook_inbox.Prelude.{
  ℕ, ◌<◌, ◌≤◌, ◌≡◌, refl, sym, Bool, true, false, not, List, Option, none, some, leb, ltb, ◌==◌,
  ◌||◌, arith, Bool-cases, inl, inr, All, length,
}
use webhook_inbox.Prelude.Sort.{select, All-select}
use webhook_inbox.Prelude.Text.{Str}
use webhook_inbox.Mongo.Indexed.Places.{IsAmong-All}
use webhook_inbox.Mongo.Indexed.{Indexed}
use webhook_inbox.Auth.{
  User, Session, same_username, same_token, Hasher, Accounts, resolve_session, verify_password,
  destroy_user_sessions,
}
use webhook_inbox.Auth.Resolve.{resolve_session-IsProven}
use webhook_inbox.Auth.Handlers.{
  answered, change_password, change_verified, changed_password, delete_user,
}

module _ (h : Hasher) (users : Indexed User same_username) (sessions : Indexed Session same_token)
    (a : Accounts users.State sessions.State) (id : ℕ) where
  -- No cookie is resolved to the user with this id, ever.
  abbrev pub IsSignedOut : Type 0
  IsSignedOut =
      (cookie : Option Str) (now : ℕ) (session : Session) (user : User)
      → (resolve_session h users sessions cookie now a).0 ≡ some (session, user)
      → (user.id == id) ≡ false

  none_left :
      (ds : List Session)
      → sessions.documents a.sessions_now ≡ select (λ d. not (d.user_id == id)) ds
      → IsSignedOut
  none_left ds left cookie now session user resolved =
      let proof = resolve_session-IsProven h users sessions cookie now a session user resolved in
      let other : (session.user_id == id) ≡ false =
        IsAmong-All (λ d. (d.user_id == id) ≡ false) proof.stored
          (subst (All (λ d. (d.user_id == id) ≡ false)) (sym left)
            (All-select (λ d. not (d.user_id == id)) ds (λ d kept. ground (arith, kept)))) in
      ground (arith, other, proof.present.matched)

module _ (h : Hasher) (dummy_hash : Str) (users : Indexed User same_username)
    (sessions : Indexed Session same_token) where
  -- All sessions of the user are gone, and those of the others are kept.
  pub record IsEnded (before after : Accounts users.State sessions.State) (id : ℕ) : Type 0 where
    pub signed_out : IsSignedOut h users sessions after id
    pub kept :
        sessions.documents after.sessions_now
        ≡ select (λ d. not (d.user_id == id)) (sessions.documents before.sessions_now)

  destroyed-IsEnded :
      (before : Accounts users.State sessions.State) (id : ℕ) (us : users.State)
      → IsEnded before
          (record {
            users_now = us;
            sessions_now = destroy_user_sessions h users sessions id before.sessions_now;
          })
          id
  unfolding destroy_user_sessions
  destroyed-IsEnded before id us =
      let left = sessions.documents-delete_many (λ d. d.user_id == id) before.sessions_now in
      record {
        signed_out =
            none_left h users sessions
              (record {
                users_now = us;
                sessions_now = destroy_user_sessions h users sessions id before.sessions_now;
              })
              id (sessions.documents before.sessions_now) left;
        kept = left;
      }

  changed_password-IsEnded :
      (id : ℕ) (before after : Accounts users.State sessions.State) (o : Option users.State)
      → changed_password h dummy_hash users sessions id before o ≡ (answered 204 none, after)
      → IsEnded before after id
  unfolding changed_password
  changed_password-IsEnded id before after none e = absurd (ground (arith, e))
  changed_password-IsEnded id before after (some us) e =
      let made : record {
        users_now = us;
        sessions_now = destroy_user_sessions h users sessions id before.sessions_now;
      }
          ≡ after =
        cc e in
      subst (λ s. IsEnded before s id) made (destroyed-IsEnded before id us)

  change_verified-IsEnded :
      (salt : Str) (user : User) (new : Str) (before after : Accounts users.State sessions.State)
      (o : Option Bool)
      → change_verified h dummy_hash users sessions salt user new before o
        ≡ (answered 204 none, after)
      → (o ≡ some true) × (8 ≤ length new) × IsEnded before after user.id
  unfolding change_verified
  change_verified-IsEnded salt user new before after none e = absurd (ground (arith, e))
  change_verified-IsEnded salt user new before after (some false) e = absurd (ground (arith, e))
  change_verified-IsEnded salt user new before after (some true) e =
      elim (Bool-cases (ltb (length new) 8)) [
        | inl short ↦ absurd (ground (arith, e, short))
        | inr long ↦ (
          refl,
          ground (arith, long),
          changed_password-IsEnded user.id before after
              (users.update_one (λ u. u.id == user.id)
                (λ u. record u { password_hash = h.hash salt new }) before.users_now)
              (rw long at e),
        )
      ]

  -- A change of the password that succeeds took the current password, and a new one of eight
  -- characters or more. It ends every session of the user, the one that it came through included,
  -- and no session of another user.
  pub change_password-IsEnded :
      (salt : Str) (user : User) (current new : Str)
      (before after : Accounts users.State sessions.State)
      → change_password h dummy_hash users sessions salt user current new before
        ≡ (answered 204 none, after)
      → (verify_password h current user.password_hash ≡ some true)
        × (8 ≤ length new)
        × IsEnded before after user.id
  unfolding change_password
  change_password-IsEnded salt user current new before after e =
      change_verified-IsEnded salt user new before after
        (verify_password h current user.password_hash) e

  -- A deletion that succeeds is of another user than the one who asks, and one of several. It ends
  -- every session of the deleted user, and no session of another user.
  pub delete_user-IsEnded :
      (user : User) (sent : Option ℕ) (before after : Accounts users.State sessions.State)
      → delete_user h dummy_hash users sessions user sent before ≡ (answered 204 none, after)
      → (id : ℕ) × (sent ≡ some id)
        × ((id == user.id) ≡ false)
        × (1 < length (users.documents before.users_now))
        × IsEnded before after id
  unfolding delete_user
  delete_user-IsEnded user none before after e = absurd (ground (arith, e))
  delete_user-IsEnded user (some id) before after e =
      elim (Bool-cases ((id == user.id) || leb (users.count_documents before.users_now) 1)) [
        | inl refused ↦ absurd (ground (arith, e, refused))
        | inr done ↦
            let made : record {
              users_now = users.delete_one (λ u. u.id == id) before.users_now;
              sessions_now = destroy_user_sessions h users sessions id before.sessions_now;
            }
                ≡ after =
              ground (arith, e, done) in
            (
              id,
              refl,
              ground (arith, done),
              ground (arith, done, users.documents-count_documents before.users_now),
              subst (λ s. IsEnded before s id) made
                  (destroyed-IsEnded before id
                    (users.delete_one (λ u. u.id == id) before.users_now)),
            )
      ]
