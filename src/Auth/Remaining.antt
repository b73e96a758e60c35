-- ===== src/Auth/Remaining.antt =====
-- The last user cannot be deleted.
use webhook_inbox.Prelude.{
  ℕ, ◌≤◌, ◌≡◌, refl, sym, ap, ◌∙◌, Bool, true, false, List, ◌++◌, Option, none, some, leb, ltb,
  ◌==◌, arith, Bool-cases, Option-cases, inl, inr, length,
}
use webhook_inbox.Prelude.Text.{Str, codes, strip}
use webhook_inbox.RateLimit.{RateLimiter, allow}
use webhook_inbox.Mongo.Indexed.{Indexed, documents_in}
use webhook_inbox.Mongo.Indexed.Lengths.{
  length-remove_first, length-insert_unique, length-update_unique,
}
use webhook_inbox.Auth.{
  User, Session, same_username, same_token, Hasher, Accounts, Drawn, verify_password,
  create_session,
}
use webhook_inbox.Auth.Handlers.{
  sign_in, finish_login, logout, change_password, change_verified, changed_password, create_user,
  is_user_create, created, delete_user, started,
}
use webhook_inbox.Auth.Reached.{
  Grant, Reached, begins, signs_in, visits, signs_out, changes_password, creates_user, deletes_user,
  sweeps,
}

module _ (h : Hasher) (dummy_hash : Str) (users : Indexed User same_username)
    (sessions : Indexed Session same_token) where
  abbrev State : Type 0
  State = Accounts users.State sessions.State

  abbrev HasUser : State → Type 0
  HasUser a = 1 ≤ length (users.documents a.users_now)

  created-HasUser :
      (a : State) (d : User)
      → HasUser a
      → HasUser (created h dummy_hash users sessions a (users.insert_one d a.users_now)).1
  unfolding created
  created-HasUser a d some_user = elim (Option-cases (users.insert_one d a.users_now)) [
    | inl failed ↦ rw failed some_user
    | inr (us, made) ↦ rw made (
        omega (
          arith,
          some_user,
          length-insert_unique same_username d (users.documents a.users_now) (users.documents us) (
              sym (users.documents-insert_one d a.users_now)
              ∙ ap (documents_in users.documents) made),
        ))
  ]

  create_user-HasUser :
      (a : State) (id : ℕ) (salt : Str) (now : ℕ) (username password : Str)
      → HasUser a
      → HasUser (create_user h dummy_hash users sessions id salt now username password a).1
  unfolding create_user
  create_user-HasUser a id salt now username password some_user =
      elim (Bool-cases (is_user_create (strip username) password)) [
        | inr bad ↦ rw bad some_user
        | inl fine ↦ rw fine (
            created-HasUser a
              (record {
                id = id;
                username = strip username;
                password_hash = h.hash salt password;
                created_at = now;
              })
              some_user)
      ]

  change_verified-HasUser :
      (a : State) (salt : Str) (user : User) (new : Str) (o : Option Bool)
      → HasUser a
      → HasUser (change_verified h dummy_hash users sessions salt user new a o).1
  unfolding change_verified changed_password
  change_verified-HasUser a salt user new none some_user = some_user
  change_verified-HasUser a salt user new (some false) some_user = some_user
  change_verified-HasUser a salt user new (some true) some_user =
      let change : User → User = λ u. record u { password_hash = h.hash salt new } in
      elim (Bool-cases (ltb (length new) 8)) [
        | inl short ↦ rw short some_user
        | inr long ↦
            rw long
              (elim (Option-cases (users.update_one (λ u. u.id == user.id) change a.users_now)) [
                | inl failed ↦ rw failed some_user
                | inr (us, made) ↦ rw made (
                    omega (
                      arith,
                      some_user,
                      length-update_unique same_username (λ u. u.id == user.id) change
                          (users.documents a.users_now) (users.documents us)
                          (sym
                              (users.documents-update_one (λ u. u.id == user.id) change a.users_now)
                            ∙ ap (documents_in users.documents) made),
                    ))
              ])
      ]

  delete_user-HasUser :
      (a : State) (user : User) (sent : Option ℕ)
      → HasUser a
      → HasUser (delete_user h dummy_hash users sessions user sent a).1
  unfolding delete_user
  delete_user-HasUser a user none some_user = some_user
  delete_user-HasUser a user (some id) some_user = elim (Bool-cases (id == user.id)) [
    | inl own ↦ rw own some_user
    | inr other ↦ rw other (elim (Bool-cases (leb (users.count_documents a.users_now) 1)) [
      | inl last ↦ rw last some_user
      | inr several ↦
          rw (several, users.documents-delete_one)
            (ground (
              arith,
              several,
              users.documents-count_documents a.users_now,
              length-remove_first (λ u. u.id == id) (users.documents a.users_now),
            ))
    ])
  ]

  finish_login-users :
      (drawn : Drawn) (now : ℕ) (a : State) (o : Option (Option User))
      → (finish_login h dummy_hash users sessions drawn now a o).1.users_now ≡ a.users_now
  unfolding finish_login started
  finish_login-users drawn now a none = refl
  finish_login-users drawn now a (some none) = refl
  finish_login-users drawn now a (some (some user)) =
      elim (Option-cases (create_session h users sessions drawn now user.id a.sessions_now)) [
        | inl failed ↦ rw failed refl
        | inr (s, made) ↦ rw made refl
      ]

  sign_in-HasUser :
      (a : State) (key : Str) (clock : ℕ) (drawn : Drawn) (now : ℕ) (username password : Str)
      (limiter : RateLimiter)
      → HasUser a
      → HasUser
          (sign_in h dummy_hash users sessions key clock drawn now username password limiter a).2
  unfolding sign_in
  sign_in-HasUser a key clock drawn now username password limiter some_user =
      elim (Bool-cases (allow (codes "login:" ++ key) clock limiter).0) [
        | inl allowed ↦ rw (allowed, finish_login-users) some_user
        | inr denied ↦ rw denied some_user
      ]

  -- The last user cannot be deleted: after any sequence of requests that begins with a user there is
  -- one, for requests that are handled one after the other.
  pub Reached-HasUser :
      (gs : List Grant) (a : State)
      → Reached h dummy_hash users sessions gs a
      → 1 ≤ length (users.documents a.users_now)
  unfolding logout change_password
  Reached-HasUser _ _ (begins a some_user none_yet) = some_user
  Reached-HasUser _ _ (signs_in {gs} {a} key clock drawn now username password limiter r) =
      sign_in-HasUser a key clock drawn now username password limiter (Reached-HasUser gs a r)
  Reached-HasUser _ _ (visits {gs} {a} cookie now r) = Reached-HasUser gs a r
  Reached-HasUser _ _ (signs_out {gs} {a} cookie r) = Reached-HasUser gs a r
  Reached-HasUser _ _ (changes_password {gs} {a} salt user current new r) =
      change_verified-HasUser a salt user new (verify_password h current user.password_hash)
        (Reached-HasUser gs a r)
  Reached-HasUser _ _ (creates_user {gs} {a} id salt now username password r) =
      create_user-HasUser a id salt now username password (Reached-HasUser gs a r)
  Reached-HasUser _ _ (deletes_user {gs} {a} user sent r) =
      delete_user-HasUser a user sent (Reached-HasUser gs a r)
  Reached-HasUser _ _ (sweeps {gs} {a} now r) = Reached-HasUser gs a r
