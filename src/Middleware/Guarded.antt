-- ===== src/Middleware/Guarded.antt =====
-- Nothing but the public paths is reached without a session.
use webhook_inbox.Prelude.{
  ◌≡◌, refl, Bool, true, false, ◌||◌, Option, none, some, ◌⊎◌, inl, inr, is_empty, any, arith,
  Bool-cases,
}
use webhook_inbox.Prelude.Text.{Str, str_eq→eq, starts_with, one_of}
use webhook_inbox.Ingest.Signature.{compare_digest}
use webhook_inbox.Middleware.{
  public_prefixes, public_paths, safe_methods, called, unauthorized, csrf_ok, after_csrf,
  with_session, dispatch,
}

-- The header holds the token of the session, which is not empty.
pub record HasToken (token provided : Option Str) : Type 0 where
  pub text : Str
  pub expected : token ≡ some text
  pub sent : provided ≡ some text
  pub filled : is_empty text ≡ false

csrf_ok-HasToken :
    (token provided : Option Str) → csrf_ok token provided ≡ some true → HasToken token provided
unfolding csrf_ok compare_digest
csrf_ok-HasToken none provided h = absurd (ground arith)
csrf_ok-HasToken (some expected) none h = absurd (ground arith)
csrf_ok-HasToken (some expected) (some provided) h =
    elim (Bool-cases (is_empty expected || is_empty provided)) [
      | inl missing ↦ absurd (ground (arith, missing))
      | inr filled ↦
          let same : provided ≡ expected = str_eq→eq provided expected (ground (arith, filled)) in
          record {
            text = expected;
            expected = refl;
            sent = rw same refl;
            filled = ground (arith, filled);
          }
    ]

after_csrf-called : (verdict : Option Bool) → after_csrf verdict ≡ called → verdict ≡ some true
unfolding after_csrf
after_csrf-called (some true) h = refl
after_csrf-called (some false) h = absurd (ground arith)
after_csrf-called none h = absurd (ground arith)

with_session-called :
    (path method : Str) (provided : Option Str) (resolved : Option (Option Str))
    → with_session path method provided resolved ≡ called
    → (token : Option Str) × (resolved ≡ some token)
      × ((one_of method safe_methods ≡ true) ⊎ HasToken token provided)
unfolding with_session unauthorized
with_session-called path method provided none h = absurd (ground arith)
with_session-called path method provided (some token) h =
    elim (Bool-cases (one_of method safe_methods)) [
      | inl safe ↦ (token, refl, inl safe)
      | inr unsafe ↦ (
        token,
        refl,
        inr (
            csrf_ok-HasToken token provided
              (after_csrf-called (csrf_ok token provided) (rw unsafe at h))),
      )
    ]

-- A request reaches the application only on a public path, or with a session; and then, unless its
-- method is a safe one, only with the session's own CSRF token, which is not empty, in its header.
pub dispatch-called :
    (path method : Str) (provided : Option Str) (resolved : Option (Option Str))
    → dispatch path method provided resolved ≡ called
    → ((any (starts_with path) public_prefixes || one_of path public_paths) ≡ true)
      ⊎ ((token : Option Str) × (resolved ≡ some token)
          × ((one_of method safe_methods ≡ true) ⊎ HasToken token provided))
unfolding dispatch
dispatch-called path method provided resolved h =
    elim (Bool-cases (any (starts_with path) public_prefixes || one_of path public_paths)) [
      | inl free ↦ inl free
      | inr closed ↦ inr (with_session-called path method provided resolved (rw closed at h))
    ]
