-- ===== src/Search/Params.antt =====
-- app/deps.py: the query of the list of events and of the export, read from the parameters of a
-- request, and the parameters that the page's links carry on.
use webhook_inbox.Prelude.{
  ◌≡◌, refl, ap, ◌∙◌, not, [], ◌∷◌, Option, none, some, if◌then◌else◌, is_empty,
}
use webhook_inbox.Prelude.Text.{Str, codes, str_eq}
use webhook_inbox.Prelude.Dict.{
  Dict, lookup, has_key, filter_values, keep_if, lookup-filter_values, HasDistinctKeys,
}
use webhook_inbox.Search.Query.{Filters}

pub record EventQuery : Type 0 where
  pub q : Str
  pub filters : Filters
  pub params : Dict Str

-- value or None
abbrev pub or_none : Str → Option Str
or_none value = if is_empty value then none else some value

abbrev pairs_of : Str → Str → Str → Str → Str → Str → Str → Dict Str
pairs_of q endpoint event_status method event_type date_from date_to =
    (codes "q", q)
    ∷ (codes "endpoint", endpoint)
    ∷ (codes "status", event_status)
    ∷ (codes "method", method)
    ∷ (codes "type", event_type)
    ∷ (codes "from", date_from)
    ∷ (codes "to", date_to)
    ∷ []

unfoldable pub event_query : Str → Str → Str → Str → Str → Str → Str → EventQuery
unfolding filter_values
event_query q endpoint event_status method event_type date_from date_to = record {
  q = q;
  filters = record {
    endpoint = or_none endpoint;
    status = or_none event_status;
    method = or_none method;
    event_type = or_none event_type;
    date_from = or_none date_from;
    date_to = or_none date_to;
  };
  params =
      filter_values (λ value. not (is_empty value))
        (pairs_of q endpoint event_status method event_type date_from date_to);
}

abbrev value_of : Option Str → Str
value_of none = []
value_of (some value) = value

-- A parameter of a request, with the default "".
abbrev pub param : Str → Dict Str → Str
param key request = value_of (lookup key request)

-- The request as FastAPI hands it to `event_query`, by the names of its parameters.
unfoldable pub read_request : Dict Str → EventQuery
unfolding event_query
read_request request =
    event_query (param (codes "q") request) (param (codes "endpoint") request)
      (param (codes "status") request) (param (codes "method") request)
      (param (codes "type") request) (param (codes "from") request) (param (codes "to") request)

kept_or_empty : (o : Option Str) → value_of (keep_if (λ value. not (is_empty value)) o) ≡ value_of o
kept_or_empty none = refl
kept_or_empty (some []) = refl
kept_or_empty (some (a ∷ s)) = refl

param-filter_values :
    (key : Str) (d : Dict Str)
    → HasDistinctKeys d
    → param key (filter_values (λ value. not (is_empty value)) d) ≡ param key d
param-filter_values key d distinct =
    ap value_of (lookup-filter_values (λ value. not (is_empty value)) key d distinct)
    ∙ kept_or_empty (lookup key d)

-- A link that carries on the parameters of a query asks for the same query.
read_request-params :
    (q endpoint event_status method event_type date_from date_to : Str)
    → read_request (event_query q endpoint event_status method event_type date_from date_to).params
      ≡ event_query q endpoint event_status method event_type date_from date_to
unfolding read_request event_query lookup has_key str_eq
read_request-params q endpoint event_status method event_type date_from date_to =
    let pairs = pairs_of q endpoint event_status method event_type date_from date_to in
    let distinct : HasDistinctKeys pairs =
      (refl, (refl, (refl, (refl, (refl, (refl, (refl, tt))))))) in
    cc (
      param-filter_values (codes "q") pairs distinct,
      param-filter_values (codes "endpoint") pairs distinct,
      param-filter_values (codes "status") pairs distinct,
      param-filter_values (codes "method") pairs distinct,
      param-filter_values (codes "type") pairs distinct,
      param-filter_values (codes "from") pairs distinct,
      param-filter_values (codes "to") pairs distinct,
    )
