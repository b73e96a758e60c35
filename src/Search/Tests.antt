-- ===== src/Search/Tests.antt =====
-- The terms of a small event.
use webhook_inbox.Prelude.{◌≤◌, ◌≡◌, [], ◌∷◌, none, length, All}
use webhook_inbox.Prelude.Text.{Str, codes, ascii_case}
use webhook_inbox.Prelude.Dict.{Dict}
use webhook_inbox.Json.{Value, str, dict, end, field}
use webhook_inbox.Search.Tokenize.{build}
use webhook_inbox.Search.Tokenize.Secrets.{without_secrets, cleaned, build-cleaned}
use webhook_inbox.Search.Tokenize.Caps.{HasNoRepeats, IsShort, HasThree, build-IsCapped}

abbrev name : Str
name = codes "demo"

abbrev headers : Dict Str
headers = (codes "x-webhook-secret", codes "s3cret") ∷ (codes "accept", codes "text/plain") ∷ []

abbrev body : Value
body = dict (
    field (codes "password") (str (codes "hunter2")) (field (codes "user") (str (codes "ann")) end))

build-cleaned_example :
    build ascii_case name none headers [] body
    ≡ build ascii_case name none (without_secrets ascii_case headers) [] (cleaned ascii_case body)
build-cleaned_example = build-cleaned ascii_case name none headers [] body

build-IsCapped_example :
    (length (build ascii_case name none headers [] body).tokens ≤ 512)
    × (length (build ascii_case name none headers [] body).trigrams ≤ 2048)
    × HasNoRepeats (build ascii_case name none headers [] body).tokens
    × HasNoRepeats (build ascii_case name none headers [] body).trigrams
    × All IsShort (build ascii_case name none headers [] body).tokens
    × All HasThree (build ascii_case name none headers [] body).trigrams
build-IsCapped_example = build-IsCapped ascii_case name none headers [] body
