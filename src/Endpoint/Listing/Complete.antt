-- ===== src/Endpoint/Listing/Complete.antt =====
-- The list of endpoints never fails, and shows every stored endpoint in the order of the names.
use mathlib.Core.Path.{subst}
use mathlib.Core.List.{append_assoc}
use webhook_inbox.Prelude.{suc, ◌≡◌, refl, ap, ◌∙◌, false, List, [], ◌∷◌, ◌++◌, some, length, All}
use webhook_inbox.Prelude.Pairwise.{length-sort_by, sort_by-All}
use webhook_inbox.Prelude.Sort.{Pairwise, IsWeakOrder, sort_by, sort_by-IsSorted, All-sort_by}
use webhook_inbox.Prelude.Text.{Unicode, str_before, str_before_asym, str_before_cotrans}
use webhook_inbox.Mongo.{Collection}
use webhook_inbox.Mongo.Indexed.{Indexed}
use webhook_inbox.Search.Query.{Formats}
use webhook_inbox.Event.{Codec, Event, event_id_of}
use webhook_inbox.Ingest.Body.{Parsers}
use webhook_inbox.Ingest.Signature.{Hmac}
use webhook_inbox.Ingest.Incoming.{Settings}
use webhook_inbox.Endpoint.{Endpoint, same_path}
use webhook_inbox.Endpoint.Validation.Configured.{IsConfigured}
use webhook_inbox.Endpoint.View.{EndpointOut}
use webhook_inbox.Endpoint.View.Shows.{Shows, from_document-Shows}
use webhook_inbox.Endpoint.Form.{Numerals}
use webhook_inbox.Endpoint.Reached.{Reached, Reached-AreConfigured}
use webhook_inbox.Endpoint.Listing.{by_name, shown_first, views_of, list_endpoints}

by_name-IsWeakOrder : IsWeakOrder by_name
by_name-IsWeakOrder = record {
  asym = λ a b. str_before_asym a.name b.name;
  cotrans = λ a b c. str_before_cotrans a.name b.name c.name;
}

pub record IsListed (v : EndpointOut) (vs : List EndpointOut) : Type 0 where
  pub front : List EndpointOut
  pub back : List EndpointOut
  pub stood : vs ≡ front ++ v ∷ back

-- The views of a list of endpoints, one by one.
abbrev pub ShowAll : List Endpoint → List EndpointOut → Type 0
ShowAll [] [] = Unit
ShowAll (e ∷ es) (v ∷ vs) = Shows e v × ShowAll es vs
ShowAll _ _ = ⊥

views_of-ShowAll :
    (u : Unicode) (es : List Endpoint)
    → All IsConfigured es
    → (vs : List EndpointOut) × (views_of u es ≡ some vs) × ShowAll es vs
unfolding views_of shown_first
views_of-ShowAll u [] h = ([], refl, tt)
views_of-ShowAll u (e ∷ es) (conf, h) =
    let (v, made, shows) = from_document-Shows u e conf in
    let (vs, listed, rest) = views_of-ShowAll u es h in
    (v ∷ vs, rw (made, listed, shown_first) refl, (shows, rest))

ShowAll-any :
    (es : List Endpoint) (vs more : List EndpointOut)
    → ShowAll es vs
    → All (λ e. (v : EndpointOut) × IsListed v (more ++ vs) × Shows e v) es
ShowAll-any [] vs more h = tt
ShowAll-any (e ∷ es) [] more h = absurd h
ShowAll-any (e ∷ es) (v ∷ vs) more (p, h) = (
  (v, record { front = more; back = vs; stood = refl }, p),
  subst (λ l. All (λ e. (v : EndpointOut) × IsListed v l × Shows e v) es)
      (append_assoc more (v ∷ []) vs) (ShowAll-any es vs (more ++ v ∷ []) h),
)

length-ShowAll :
    (es : List Endpoint) (vs : List EndpointOut) → ShowAll es vs → length vs ≡ length es
length-ShowAll [] [] h = refl
length-ShowAll [] (v ∷ vs) h = absurd h
length-ShowAll (e ∷ es) [] h = absurd h
length-ShowAll (e ∷ es) (v ∷ vs) (p, h) = ap suc (length-ShowAll es vs h)

abbrev pub InOrder : EndpointOut → EndpointOut → Type 0
InOrder v w = str_before w.name v.name ≡ false

ordered_after :
    (e : Endpoint) (v : EndpointOut) (es : List Endpoint) (vs : List EndpointOut)
    → v.name ≡ e.name
    → ShowAll es vs
    → All (λ d. by_name d e ≡ false) es
    → All (InOrder v) vs
ordered_after e v [] [] same h k = tt
ordered_after e v [] (w ∷ vs) same h k = absurd h
ordered_after e v (d ∷ es) [] same h k = absurd h
ordered_after e v (d ∷ es) (w ∷ vs) same (p, h) (q, k) =
    (rw (same, p.name) q, ordered_after e v es vs same h k)

ordered :
    (es : List Endpoint) (vs : List EndpointOut)
    → ShowAll es vs
    → Pairwise (λ a b. by_name b a ≡ false) es
    → Pairwise InOrder vs
ordered [] [] h k = tt
ordered [] (v ∷ vs) h k = absurd h
ordered (e ∷ es) [] h k = absurd h
ordered (e ∷ es) (v ∷ vs) (p, h) (q, k) = (ordered_after e v es vs p.name h q, ordered es vs h k)

-- A list of views of all these endpoints and no more, in the order of the names.
pub record IsCatalogue (es : List Endpoint) (vs : List EndpointOut) : Type 0 where
  pub every : All (λ e. (v : EndpointOut) × IsListed v vs × Shows e v) es
  pub no_more : length vs ≡ length es
  pub in_order : Pairwise InOrder vs

sorted-IsCatalogue :
    (es : List Endpoint) (vs : List EndpointOut)
    → ShowAll (sort_by by_name es) vs
    → IsCatalogue es vs
sorted-IsCatalogue es vs h = record {
  every =
      sort_by-All by_name (λ e. (v : EndpointOut) × IsListed v vs × Shows e v) es
        (ShowAll-any (sort_by by_name es) vs [] h);
  no_more = length-ShowAll (sort_by by_name es) vs h ∙ length-sort_by by_name es;
  in_order = ordered (sort_by by_name es) vs h (sort_by-IsSorted by_name by_name-IsWeakOrder es);
}

module _ (u : Unicode) (codec : Codec) (parsers : Parsers) (hmac : Hmac) (settings : Settings)
    (f : Formats) (n : Numerals) (endpoints : Indexed Endpoint same_path)
    (events : Collection Event event_id_of) where
  -- After any creations, changes and deletions of endpoints over the API or the forms, and any
  -- webhooks, as long as no null was written where every reader needs a value, the list of endpoints
  -- does not fail: it shows every stored endpoint and no more, in the order of the names, with its
  -- id, name, methods and switch, the URL of its path, and whether it has a secret.
  pub list_endpoints-IsCatalogue :
      (s : endpoints.State) (es : events.State)
      → Reached u codec parsers hmac settings f n endpoints events s es
      → (vs : List EndpointOut) × (list_endpoints u f endpoints s ≡ some vs)
        × IsCatalogue (endpoints.documents s) vs
  unfolding list_endpoints
  list_endpoints-IsCatalogue s es r =
      let (vs, listed, h) = views_of-ShowAll u (sort_by by_name (endpoints.documents s)) (
        All-sort_by IsConfigured by_name (endpoints.documents s)
          (Reached-AreConfigured u codec parsers hmac settings f n endpoints events s es r)) in
      (vs, listed, sorted-IsCatalogue (endpoints.documents s) vs h)
