-- ===== src/Middleware/Tests.antt =====
-- Requests with and without a session.
use webhook_inbox.Prelude.{◌≡◌, refl, none, some}
use webhook_inbox.Prelude.Text.{codes, starts_with, one_of, str_eq}
use webhook_inbox.Middleware.{replied, csrf_ok, after_csrf, with_session, dispatch, unauthorized}

no_session : dispatch (codes "/api/endpoints") (codes "GET") none none ≡ replied 401
unfolding dispatch with_session unauthorized starts_with one_of str_eq
no_session = refl

no_token :
    dispatch (codes "/endpoints") (codes "POST") none (some (some (codes "t0k"))) ≡ replied 403
unfolding dispatch with_session csrf_ok after_csrf starts_with one_of str_eq
no_token = refl
