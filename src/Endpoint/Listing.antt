-- ===== src/Endpoint/Listing.antt =====
-- Reading the endpoints: list_endpoints and get_endpoint of app/api/endpoints.py, and _endpoint_list and
-- endpoint_detail of app/web/routes.py, which do the same.
pub mod Complete
use webhook_inbox.Prelude.{Bool, List, [], ◌∷◌, Option, none, some}
use webhook_inbox.Prelude.Sort.{sort_by}
use webhook_inbox.Prelude.Text.{Str, Unicode, str_before}
use webhook_inbox.Mongo.Indexed.{Indexed}
use webhook_inbox.Search.Query.{Formats}
use webhook_inbox.Endpoint.{Endpoint, same_path}
use webhook_inbox.Endpoint.View.{EndpointOut, from_document}
use webhook_inbox.Endpoint.Store.{find_or_404}

-- find().sort("name", 1)
abbrev pub by_name : Endpoint → Endpoint → Bool
by_name a b = str_before a.name b.name

shown_first : Option EndpointOut → Option (List EndpointOut) → Option (List EndpointOut)
shown_first (some view) (some views) = some (view ∷ views)
shown_first _ _ = none

-- [EndpointOut.from_document(doc) async for doc in cursor]: `none` is an exception.
unfoldable pub views_of : Unicode → List Endpoint → Option (List EndpointOut)
unfolding shown_first from_document
views_of u [] = some []
views_of u (e ∷ es) = shown_first (from_document u e) (views_of u es)

-- What a reader is told.
pub data Shown : Type 0 where
  missing : Shown
  view : EndpointOut → Shown
  broken : Shown

shown_or_broken : Option EndpointOut → Shown
shown_or_broken none = broken
shown_or_broken (some out) = view out

show_found : Unicode → Option Endpoint → Shown
unfolding shown_or_broken from_document
show_found u none = missing
show_found u (some e) = shown_or_broken (from_document u e)

module _ (u : Unicode) (f : Formats) (endpoints : Indexed Endpoint same_path) where
  unfoldable pub list_endpoints : endpoints.State → Option (List EndpointOut)
  unfolding views_of sort_by str_before
  list_endpoints s = views_of u (sort_by by_name (endpoints.documents s))

  unfoldable pub get_endpoint : Str → endpoints.State → Shown
  unfolding show_found find_or_404
  get_endpoint endpoint_id s = show_found u (find_or_404 u f endpoints endpoint_id s)
