-- ===== src/Replay/Headers.antt =====
-- The header rules of app/replay/runner.py: what a replay takes over from the stored event, and
-- what the user may add.
pub mod Forwarding
use webhook_inbox.Prelude.{Bool, not, ◌&&◌, ◌||◌, List, [], ◌∷◌, if◌then◌else◌}
use webhook_inbox.Prelude.Text.{Str, codes, Unicode, one_of, starts_with}
use webhook_inbox.Prelude.Dict.{Dict, insert, merge}

abbrev pub blocked_headers : List Str
blocked_headers =
    codes "authorization"
    ∷ codes "cookie"
    ∷ codes "proxy-authorization"
    ∷ codes "host"
    ∷ codes "content-length"
    ∷ codes "connection"
    ∷ codes "transfer-encoding"
    ∷ codes "te"
    ∷ codes "upgrade"
    ∷ codes "expect"
    ∷ []

abbrev pub hop_by_hop_headers : List Str
hop_by_hop_headers =
    codes "host"
    ∷ codes "content-length"
    ∷ codes "connection"
    ∷ codes "transfer-encoding"
    ∷ codes "te"
    ∷ codes "upgrade"
    ∷ codes "expect"
    ∷ []

abbrev pub forward_exact : List Str
forward_exact = codes "content-type" ∷ codes "accept" ∷ codes "user-agent" ∷ []

-- The test of the loop, on a lowered name.
unfoldable pub is_forwarded : Str → Bool
unfolding one_of starts_with
is_forwarded lowered =
    not (one_of lowered blocked_headers)
    && (one_of lowered forward_exact
        || starts_with lowered (codes "x-")
        || starts_with lowered (codes "stripe-"))

module _ (u : Unicode) where
  unfoldable pub forward_from : Dict Str → Dict Str → Dict Str
  forward_from forwarded [] = forwarded
  forward_from forwarded ((key, value) ∷ headers) =
      forward_from
        (if is_forwarded (u.lower key) then insert (u.lower key) value forwarded else forwarded)
        headers

  unfoldable pub forwardable : Dict Str → Dict Str
  unfolding forward_from
  forwardable headers = forward_from [] headers

  -- The comprehension over the headers that the user typed.
  unfoldable pub choose_from : Dict Str → Dict Str → Dict Str
  choose_from chosen [] = chosen
  choose_from chosen ((key, value) ∷ custom) =
      choose_from
        (if one_of (u.lower key) hop_by_hop_headers
          then chosen
          else insert (u.lower key) value chosen)
        custom

  unfoldable pub merge_headers : Dict Str → Dict Str → Dict Str
  unfolding choose_from merge
  merge_headers original custom = merge (forwardable original) (choose_from [] custom)
