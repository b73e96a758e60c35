-- ===== src/RateLimit/Client.antt =====
-- `client_key` of app/ratelimit.py: whom a request is counted against.
use webhook_inbox.Prelude.{
  ◌≡◌, refl, ap, ◌∙◌, Bool, true, false, List, [], ◌∷◌, ◌++◌, Option, none, some, if◌then◌else◌,
  is_empty, arith, ◌==◌, Bool-cases, inl, inr,
}
use webhook_inbox.Prelude.Text.{Str, codes, has_char, split_on, strip}
use webhook_inbox.Prelude.Dict.{Dict, lookup}

-- pieces[-1] of a list that is not empty
abbrev pub last_piece : List Str → Str
last_piece [] = []
last_piece (piece ∷ []) = piece
last_piece (piece ∷ next ∷ pieces) = last_piece (next ∷ pieces)

abbrev pub host_or_unknown : Option Str → Str
host_or_unknown none = codes "unknown"
host_or_unknown (some host) = host

-- headers.get(key, "")
abbrev pub get_or_empty : Option Str → Str
get_or_empty none = []
get_or_empty (some value) = value

-- With `trust_forwarded_for`, the request's headers and the host of its client.
unfoldable pub client_key : Bool → Dict Str → Option Str → Str
unfolding lookup split_on strip
client_key trust headers client =
    let forwarded = get_or_empty (lookup (codes "x-forwarded-for") headers) in
    if trust
    then (if is_empty forwarded
        then host_or_unknown client
        else strip (last_piece (split_on b',' forwarded)))
    else host_or_unknown client

split_on-plain : (s : Str) → has_char s b',' ≡ false → split_on b',' s ≡ s ∷ []
unfolding split_on
split_on-plain [] h = refl
split_on-plain (a ∷ s) h = ground (arith, split_on-plain s)

-- The pieces of a text with a comma behind it are one piece more.
record IsSplit (claimed hop : Str) : Type 0 where
  first : Str
  others : List Str
  pieces : split_on b',' (claimed ++ b',' ∷ hop) ≡ first ∷ (others ++ hop ∷ [])

hop-IsSplit : (claimed hop : Str) → has_char hop b',' ≡ false → IsSplit claimed hop
unfolding split_on
hop-IsSplit [] hop h = record {
  first = [];
  others = [];
  pieces = ap (λ t. [] ∷ t) (split_on-plain hop h);
}
hop-IsSplit (a ∷ claimed) hop h =
    let s = hop-IsSplit claimed hop h in
    elim (Bool-cases (a == b',')) [
      | inl comma ↦ record {
        first = [];
        others = s.first ∷ s.others;
        pieces = rw (comma, s.pieces) refl;
      }
      | inr plain ↦ record {
        first = a ∷ s.first;
        others = s.others;
        pieces = rw (plain, s.pieces) refl;
      }
    ]

append-not_empty : (claimed hop : Str) → is_empty (claimed ++ b',' ∷ hop) ≡ false
append-not_empty [] hop = refl
append-not_empty (a ∷ claimed) hop = refl

last_piece-append : (piece : Str) (pieces : List Str) → last_piece (pieces ++ piece ∷ []) ≡ piece
last_piece-append piece [] = refl
last_piece-append piece (p ∷ []) = refl
last_piece-append piece (p ∷ q ∷ pieces) = last_piece-append piece (q ∷ pieces)

-- Behind a trusted proxy that appends the address of its client, a request is counted against that
-- address, whatever the client itself wrote into the header before it. The address has no comma.
client_key-last_hop :
    (headers : Dict Str) (client : Option Str) (claimed hop : Str)
    → has_char hop b',' ≡ false
    → lookup (codes "x-forwarded-for") headers ≡ some (claimed ++ b',' ∷ hop)
    → client_key true headers client ≡ strip hop
unfolding client_key
client_key-last_hop headers client claimed hop h e =
    let s = hop-IsSplit claimed hop h in
    let last : last_piece (split_on b',' (claimed ++ b',' ∷ hop)) ≡ hop =
      ap last_piece s.pieces ∙ last_piece-append hop (s.first ∷ s.others) in
    rw (e, append-not_empty claimed hop, last) refl
