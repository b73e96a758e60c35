-- ===== src/Auth/Guard.antt =====
-- AuthMiddleware of app/middleware.py over the sessions, and is_https with the headers that
-- SecurityHeadersMiddleware adds.
use mathlib.Core.Path.{subst}
use webhook_inbox.Prelude.{
  ℕ, ◌+◌, ◌≡◌, refl, Bool, true, false, ◌&&◌, ◌||◌, List, [], ◌∷◌, Option, none, some,
  if◌then◌else◌, any, ltb, ◌==◌, ◌⊎◌, inl, inr, arith, Bool-cases,
}
use webhook_inbox.Prelude.Text.{
  first_piece, Str, codes, str_eq, starts_with, one_of, split_on, strip,
}
use webhook_inbox.Prelude.Dict.{Dict, lookup, insert, merge}
use webhook_inbox.Mongo.Indexed.{Indexed}
use webhook_inbox.Middleware.{
  public_prefixes, public_paths, safe_methods, Passage, called, dispatch,
}
use webhook_inbox.Middleware.Guarded.{HasToken, dispatch-called}
use webhook_inbox.Auth.{
  User, Session, same_username, same_token, Hasher, Accounts, session_ttl, resolve_session,
}
use webhook_inbox.Auth.Reached.{Grant, Reached}
use webhook_inbox.Auth.Holder.{Reached-granted}

-- session.get("csrf_token"), of the session that was resolved
abbrev pub csrf_of : Option (Session × User) → Option (Option Str)
csrf_of none = none
csrf_of (some (session, user)) = some (some session.csrf_token)

abbrev get_or_empty : Option Str → Str
get_or_empty none = []
get_or_empty (some value) = value

-- is_https, of the scheme and the headers
unfoldable pub is_https : Str → Dict Str → Bool
unfolding str_eq lookup split_on strip
is_https scheme headers =
    str_eq scheme (codes "https")
    || str_eq
        (strip
          (first_piece (split_on b',' (get_or_empty (lookup (codes "x-forwarded-proto") headers)))))
        (codes "https")

-- SECURITY_HEADERS, with the names in lower case as Starlette keeps them.
abbrev pub security_headers : Dict Str
security_headers =
    (
      codes "content-security-policy",
      codes
          "default-src 'self'; script-src 'self' 'unsafe-inline'; style-src 'self' 'unsafe-inline'; img-src 'self' data:; connect-src 'self'; form-action 'self'; base-uri 'none'; frame-ancestors 'none'",
    )
    ∷ (codes "x-content-type-options", codes "nosniff")
    ∷ (codes "x-frame-options", codes "DENY")
    ∷ (codes "referrer-policy", codes "no-referrer")
    ∷ []

-- The headers of a response, with their names in lower case, behind SecurityHeadersMiddleware.
unfoldable pub with_security_headers : Str → Dict Str → Dict Str → Dict Str
unfolding is_https merge insert
with_security_headers scheme request_headers headers =
    let updated = merge headers security_headers in
    if is_https scheme request_headers
    then insert (codes "strict-transport-security") (codes "max-age=31536000; includeSubDomains")
        updated
    else updated

module _ (h : Hasher) (dummy_hash : Str) (users : Indexed User same_username)
    (sessions : Indexed Session same_token) where
  abbrev State : Type 0
  State = Accounts users.State sessions.State

  -- What the middleware does with a request, and the accounts then: a path with a public prefix
  -- never touches the sessions.
  unfoldable pub guard : Str → Str → Option Str → Option Str → ℕ → State → Passage × State
  unfolding dispatch resolve_session starts_with
  guard path method cookie provided now a =
      let (resolved, after) = resolve_session h users sessions cookie now a in
      if any (starts_with path) public_prefixes
      then (called, a)
      else (dispatch path method provided (csrf_of resolved), record a { sessions_now = after })

  csrf_of-some :
      (resolved : Option (Session × User)) (token : Option Str)
      → csrf_of resolved ≡ some token
      → (session : Session) × (user : User) × (resolved ≡ some (session, user))
        × (token ≡ some session.csrf_token)
  csrf_of-some none token e = absurd (ground (arith, e))
  csrf_of-some (some (session, user)) token e = (session, user, refl, cc e)

  passed_on :
      (b : Bool) (x : Passage) (s s' : State)
      → b ≡ false
      → (if◌then◌else◌ {A = Passage × State} b (called, s) (x, s')).0 ≡ called
      → x ≡ called
  passed_on true x s s' shut h = absurd (ground (arith, shut))
  passed_on false x s s' shut h = h

  -- What lets a request through that is not for a public path.
  pub record IsAdmitted (gs : List Grant) (method : Str) (cookie provided : Option Str) (now : ℕ)
      (a : State) : Type 0 where
    pub session : Session
    pub user : User
    pub resolved : (resolve_session h users sessions cookie now a).0 ≡ some (session, user)
    pub granted : any (λ g. (g.user_id == user.id) && ltb now (g.at + session_ttl)) gs ≡ true
    pub intended : (one_of method safe_methods ≡ true) ⊎ HasToken (some session.csrf_token) provided

  csrf_of-IsAdmitted :
      (gs : List Grant) (method : Str) (cookie provided : Option Str) (now : ℕ) (a : State)
      (token : Option Str)
      → Reached h dummy_hash users sessions gs a
      → csrf_of (resolve_session h users sessions cookie now a).0 ≡ some token
      → (one_of method safe_methods ≡ true) ⊎ HasToken token provided
      → IsAdmitted gs method cookie provided now a
  csrf_of-IsAdmitted gs method cookie provided now a token reached found intended =
      let (session, user, resolved, same) =
        csrf_of-some (resolve_session h users sessions cookie now a).0 token found in
      record {
        session = session;
        user = user;
        resolved = resolved;
        granted =
            Reached-granted h dummy_hash users sessions gs a cookie now session user reached
              resolved;
        intended =
            subst (λ t. (one_of method safe_methods ≡ true) ⊎ HasToken t provided) same intended;
      }

  -- After any sequence of requests, the application sees a request only on a public path, or from a
  -- user who signed in within the last seven days and has neither changed the password nor been
  -- deleted since; and then, unless its method is a safe one, only with the CSRF token of that
  -- session, which is not empty, in its header.
  pub guard-called :
      (gs : List Grant) (path method : Str) (cookie provided : Option Str) (now : ℕ) (a : State)
      → Reached h dummy_hash users sessions gs a
      → (guard path method cookie provided now a).0 ≡ called
      → ((any (starts_with path) public_prefixes || one_of path public_paths) ≡ true)
        ⊎ IsAdmitted gs method cookie provided now a
  unfolding guard
  guard-called gs path method cookie provided now a reached passed =
      elim (Bool-cases (any (starts_with path) public_prefixes)) [
        | inl free ↦ inl (ground (arith, free))
        | inr shut ↦
            elim (dispatch-called path method provided
              (csrf_of (resolve_session h users sessions cookie now a).0)
              (passed_on (any (starts_with path) public_prefixes)
                (dispatch path method provided
                  (csrf_of (resolve_session h users sessions cookie now a).0))
                a (record a { sessions_now = (resolve_session h users sessions cookie now a).1 })
                shut passed)) [
                  | inl public ↦ inl public
                  | inr (token, found, intended) ↦ inr (
                      csrf_of-IsAdmitted gs method cookie provided now a token reached found
                        intended)
                ]
      ]
