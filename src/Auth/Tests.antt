-- ===== src/Auth/Tests.antt =====
-- Two users and their sessions.
use webhook_inbox.Prelude.{
  ◌+◌, ◌≤◌, ◌≡◌, refl, true, false, ◌&&◌, List, [], ◌∷◌, none, some, if◌then◌else◌, leb, ltb, ◌==◌,
  any, length, arith, ◌||◌, ◌⊎◌,
}
use webhook_inbox.Prelude.Text.{Str, codes, str_eq, str_eq_refl, starts_with, one_of}
use webhook_inbox.Ingest.Signature.{compare_digest}
use webhook_inbox.Middleware.{
  public_prefixes, public_paths, dispatch, with_session, csrf_ok, after_csrf,
}
use webhook_inbox.Auth.Guard.{guard, IsAdmitted, guard-called}
use webhook_inbox.RateLimit.{RateLimiter, new, allow}
use webhook_inbox.Mongo.Lists.{find_first}
use webhook_inbox.Mongo.Indexed.{Indexed, indexed_in_memory, insert_unique, update_unique}
use webhook_inbox.Auth.{
  User, Session, same_username, same_token, Hasher, Verdict, verified, mismatched, Accounts, Drawn,
  session_ttl, session_of, resolve_session, create_session, verify_password, destroy_user_sessions,
}
use webhook_inbox.Auth.Handlers.{change_password, sign_in, authenticate, finish_login}
use webhook_inbox.Auth.Resolve.{resolve_session-create_session}
use webhook_inbox.Auth.Ended.{IsEnded, change_password-IsEnded}
use webhook_inbox.Auth.Reached.{Reached, begins, signs_in, opened, owner_of}
use webhook_inbox.Auth.Holder.{Reached-granted}
use webhook_inbox.Auth.Remaining.{Reached-HasUser}

-- A hash that shows its password.
abbrev verify_plain : Str → Str → Verdict
verify_plain password_hash password = if str_eq password_hash password then verified else mismatched

abbrev plain : Hasher
plain = record {
  hash = λ salt password. password;
  verify = verify_plain;
  digest = λ token. token;
  verify-hash = λ salt password. rw (verify_plain, str_eq_refl) refl;
}

abbrev users : Indexed User same_username
users = indexed_in_memory User same_username

abbrev sessions : Indexed Session same_token
sessions = indexed_in_memory Session same_token

abbrev ann : User
ann = record { id = 1; username = codes "ann"; password_hash = codes "longenough"; created_at = 0 }

abbrev bob : User
bob = record { id = 2; username = codes "bob"; password_hash = codes "password"; created_at = 0 }

abbrev drawn : Drawn
drawn = record { id = 7; token = codes "t0k"; csrf_token = codes "c" }

abbrev both : Accounts (List User) (List Session)
both = record { users_now = ann ∷ bob ∷ []; sessions_now = [] }

abbrev signed_in_ann : Accounts (List User) (List Session)
signed_in_ann = record {
  users_now = ann ∷ bob ∷ [];
  sessions_now = session_of plain drawn 5 1 ∷ [];
}

abbrev limiter : RateLimiter
limiter = new 10 false

ann_signs_in :
    (sign_in plain [] users sessions
      (codes "h")
      0
      drawn
      5
      (codes "ann")
      (codes "longenough")
      limiter
      both).2
    ≡ signed_in_ann
unfolding sign_in authenticate finish_login create_session insert_unique find_first allow new str_eq
    verify_password
ann_signs_in = refl

resolve_session-create_session_example :
    (resolve_session plain users sessions (some (codes "t0k")) 9 signed_in_ann).0
    ≡ (if leb (5 + session_ttl) 9 then none else some (session_of plain drawn 5 1, ann))
unfolding create_session insert_unique find_first
resolve_session-create_session_example =
    resolve_session-create_session plain users sessions drawn 5 9 1 ann (ann ∷ bob ∷ []) []
      (session_of plain drawn 5 1 ∷ []) refl refl refl

abbrev changed : Accounts (List User) (List Session)
changed = record {
  users_now = record ann { password_hash = codes "a new one" } ∷ bob ∷ [];
  sessions_now = [];
}

change_password-IsEnded_example :
    (verify_password plain (codes "longenough") (codes "longenough") ≡ some true)
    × (8 ≤ length (codes "a new one"))
    × IsEnded plain [] users sessions signed_in_ann changed 1
unfolding change_password verify_password str_eq update_unique destroy_user_sessions session_of
change_password-IsEnded_example =
    change_password-IsEnded plain [] users sessions [] ann (codes "longenough") (codes "a new one")
      signed_in_ann changed refl

abbrev only_bob : Accounts (List User) (List Session)
only_bob = record { users_now = bob ∷ []; sessions_now = [] }

abbrev reached :
    Reached plain [] users sessions
      (opened
        (owner_of plain users (codes "ann") (codes "longenough") (ann ∷ bob ∷ []))
        5
        (sign_in plain [] users sessions
          (codes "h")
          0
          drawn
          5
          (codes "ann")
          (codes "longenough")
          limiter
          both).0
        [])
      (sign_in plain [] users sessions
        (codes "h")
        0
        drawn
        5
        (codes "ann")
        (codes "longenough")
        limiter
        both).2
reached =
    signs_in (codes "h") 0 drawn 5 (codes "ann") (codes "longenough") limiter
      (begins both (omega arith) refl)

Reached-granted_example :
    any
      (λ g. (g.user_id == 1) && ltb 9 (g.at + session_ttl))
      (opened
        (owner_of plain users (codes "ann") (codes "longenough") (ann ∷ bob ∷ []))
        5
        (sign_in plain [] users sessions
          (codes "h")
          0
          drawn
          5
          (codes "ann")
          (codes "longenough")
          limiter
          both).0
        [])
    ≡ true
unfolding sign_in authenticate finish_login create_session insert_unique find_first resolve_session
    allow new str_eq verify_password
Reached-granted_example =
    Reached-granted plain [] users sessions
      (opened (owner_of plain users (codes "ann") (codes "longenough") (ann ∷ bob ∷ [])) 5
        (sign_in plain [] users sessions (codes "h") 0 drawn 5 (codes "ann") (codes "longenough")
          limiter both).0
        [])
      (sign_in plain [] users sessions (codes "h") 0 drawn 5 (codes "ann") (codes "longenough")
        limiter both).2
      (some (codes "t0k")) 9 (session_of plain drawn 5 1) ann reached refl

Reached-HasUser_example :
    1
    ≤ length
        (sign_in plain [] users sessions
          (codes "h")
          0
          drawn
          5
          (codes "ann")
          (codes "longenough")
          limiter
          both).2.users_now
Reached-HasUser_example =
    Reached-HasUser plain [] users sessions
      (opened (owner_of plain users (codes "ann") (codes "longenough") (ann ∷ bob ∷ [])) 5
        (sign_in plain [] users sessions (codes "h") 0 drawn 5 (codes "ann") (codes "longenough")
          limiter both).0
        [])
      (sign_in plain [] users sessions (codes "h") 0 drawn 5 (codes "ann") (codes "longenough")
        limiter both).2
      reached

guard-called_example :
    ((any (starts_with (codes "/endpoints")) public_prefixes
        || one_of (codes "/endpoints") public_paths)
      ≡ true)
    ⊎ IsAdmitted plain [] users sessions
        (opened
          (owner_of plain users (codes "ann") (codes "longenough") (ann ∷ bob ∷ []))
          5
          (sign_in plain [] users sessions
            (codes "h")
            0
            drawn
            5
            (codes "ann")
            (codes "longenough")
            limiter
            both).0
          [])
        (codes "POST")
        (some (codes "t0k"))
        (some (codes "c"))
        9
        (sign_in plain [] users sessions
          (codes "h")
          0
          drawn
          5
          (codes "ann")
          (codes "longenough")
          limiter
          both).2
unfolding guard dispatch with_session csrf_ok after_csrf compare_digest starts_with one_of sign_in
    authenticate finish_login create_session insert_unique find_first resolve_session allow new
    str_eq verify_password
guard-called_example =
    guard-called plain [] users sessions
      (opened (owner_of plain users (codes "ann") (codes "longenough") (ann ∷ bob ∷ [])) 5
        (sign_in plain [] users sessions (codes "h") 0 drawn 5 (codes "ann") (codes "longenough")
          limiter both).0
        [])
      (codes "/endpoints") (codes "POST") (some (codes "t0k")) (some (codes "c")) 9
      (sign_in plain [] users sessions (codes "h") 0 drawn 5 (codes "ann") (codes "longenough")
        limiter both).2
      reached refl
