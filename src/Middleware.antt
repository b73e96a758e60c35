-- ===== src/Middleware.antt =====
-- `AuthMiddleware` of app/middleware.py: what is let through without a session. The session that
-- `resolve_session` finds enters as a value: its CSRF token, if it has one.
pub mod Guarded
mod Tests
use webhook_inbox.Prelude.{
  ℕ, Bool, true, false, not, ◌&&◌, ◌||◌, List, [], ◌∷◌, Option, none, some, if◌then◌else◌, is_empty,
  any,
}
use webhook_inbox.Prelude.Text.{Str, codes, starts_with, one_of}
use webhook_inbox.Ingest.Signature.{compare_digest}

abbrev pub public_prefixes : List Str
public_prefixes = codes "/webhooks/" ∷ codes "/static/" ∷ []

abbrev pub public_paths : List Str
public_paths = codes "/health" ∷ codes "/ready" ∷ codes "/login" ∷ codes "/api/auth/login" ∷ []

abbrev pub safe_methods : List Str
safe_methods = codes "GET" ∷ codes "HEAD" ∷ codes "OPTIONS" ∷ []

-- What becomes of a request: the application sees it, it is answered with a status, or an
-- exception leaves the middleware.
pub data Passage : Type 0 where
  called : Passage
  replied : (status : ℕ) → Passage
  raised : Passage

-- `_unauthorized`: 401 for the API, and a redirect to the login otherwise
unfoldable pub unauthorized : Str → Passage
unfolding starts_with
unauthorized path = replied (if starts_with path (codes "/api/") then 401 else 303)

-- `_csrf_ok`, of the session's token and the header
unfoldable pub csrf_ok : Option Str → Option Str → Option Bool
unfolding compare_digest
csrf_ok none provided = some false
csrf_ok (some expected) none = some false
csrf_ok (some expected) (some provided) =
    if is_empty expected || is_empty provided then some false else compare_digest provided expected

unfoldable pub after_csrf : Option Bool → Passage
after_csrf (some true) = called
after_csrf (some false) = replied 403
after_csrf none = raised

-- The middleware from the check of the user on.
unfoldable pub with_session : Str → Str → Option Str → Option (Option Str) → Passage
unfolding unauthorized csrf_ok after_csrf one_of
with_session path method provided none = unauthorized path
with_session path method provided (some token) =
    if one_of method safe_methods then called else after_csrf (csrf_ok token provided)

-- `dispatch`, of a path, a method, the CSRF header and the session that was resolved.
unfoldable pub dispatch : Str → Str → Option Str → Option (Option Str) → Passage
unfolding with_session one_of starts_with
dispatch path method provided resolved =
    if any (starts_with path) public_prefixes || one_of path public_paths
    then called
    else with_session path method provided resolved
