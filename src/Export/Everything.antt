-- ===== src/Export/Everything.antt =====
-- stream_events of app/search/query.py gives every match, each once, and in order.
use mathlib.Core.Path.{subst}
use mathlib.Core.List.{Perm}
use webhook_inbox.Prelude.{
  ◌≡◌, refl, sym, ap, ◌∙◌, Bool, false, ◌&&◌, ◌||◌, List, [], ◌∷◌, map, leb, is_empty, arith,
  Bool-cases, inl, inr, if◌then◌else◌,
}
use webhook_inbox.Prelude.Sort.{
  select, sort_by, IsWeakOrder, Pairwise, sort_by-IsSorted, select_everything, select-both,
  select_same,
}
use webhook_inbox.Prelude.Sort.Permuted.{sort_by-perm, sort_by-map, select-map}
use webhook_inbox.Prelude.Text.{Str, Unicode, strip}
use webhook_inbox.Event.{Event}
use webhook_inbox.Search.Query.{Formats, Filters, to_query, selects}
use webhook_inbox.Search.Ranking.{
  Hit, hit_before, newer, is_behind, matched, scored, probe, min_score, Probe, search, list_events,
  until, is_candidate, score_of, stream_events,
}
use webhook_inbox.Export.{documents_of}
use webhook_inbox.Search.Ranking.Keyset.{hit_before-IsWeakOrder, newer-IsWeakOrder}

module _ (u : Unicode) (f : Formats) where
  -- What is asked of an event: that the filters select it and, unless the query is blank, that the
  -- query reaches it with a score of at least the minimum.
  abbrev pub is_match : Str → Filters → Event → Bool
  is_match query filters e =
      selects (to_query u f filters) e
      && (is_empty (strip query)
          || (is_candidate (probe u query) e.search
              && leb (min_score (probe u query)) (score_of (probe u query) e.search)))

  -- Newest first or, where there is a query, by score, time and id.
  abbrev pub comes_before : Str → Event → Event → Bool
  comes_before query =
      if is_empty (strip query)
      then newer
      else (λ a b. hit_before (scored (probe u query) a) (scored (probe u query) b))

  pub record IsEveryMatch (events : List Event) (query : Str) (filters : Filters)
      (rows : List Event) : Type 0 where
    pub each_once : Perm rows (select (is_match query filters) events)
    pub in_order : Pairwise (λ a b. comes_before query b a ≡ false) rows

  comes_before-IsWeakOrder : (query : Str) → IsWeakOrder (comes_before query)
  comes_before-IsWeakOrder query = elim (Bool-cases (is_empty (strip query))) [
    | inl blank ↦ rw blank newer-IsWeakOrder
    | inr asked ↦ record {
      asym = λ a b.
          rw asked
            (hit_before-IsWeakOrder.asym (scored (probe u query) a) (scored (probe u query) b));
      cotrans = λ a b c. rw asked (
          hit_before-IsWeakOrder.cotrans (scored (probe u query) a) (scored (probe u query) b)
            (scored (probe u query) c));
    }
  ]

  matched_events :
      (events : List Event) (query : Str) (filters : Filters)
      → is_empty (strip query) ≡ false
      → matched u f events query filters
        ≡ map (scored (probe u query)) (select (is_match query filters) events)
  unfolding matched scored
  matched_events events query filters asked =
      let p = probe u query in
      let chosen = λ (e : Event). selects (to_query u f filters) e && is_candidate p e.search in
      let high = λ (e : Event). leb (min_score p) (score_of p e.search) in
      select-map (scored p) (λ h. leb (min_score p) h.score) (select chosen events)
      ∙ ap (map (scored p)) (
          sym (select-both chosen high events)
          ∙ select_same _ (is_match query filters) events (λ e. ground (arith, asked)))

  events_scored :
      (p : Probe) (es : List Event) → map (λ (h : Hit). h.event) (map (scored p) es) ≡ es
  unfolding scored
  events_scored p [] = refl
  events_scored p (e ∷ es) = ap (λ t. e ∷ t) (events_scored p es)

  stream_events-sort_by :
      (events : List Event) (query : Str) (filters : Filters)
      → documents_of (stream_events u f events query filters)
        ≡ sort_by (comes_before query) (select (is_match query filters) events)
  unfolding stream_events list_events search until is_behind
  stream_events-sort_by events query filters = elim (Bool-cases (is_empty (strip query))) [
    | inl blank ↦ rw blank (ap (sort_by newer) (select_same _ _ events (λ e. ground arith)))
    | inr asked ↦
        let found = select (is_match query filters) events in
        let p = probe u query in
        rw (asked, search)
          (ap (λ hs. map (λ (h : Hit). h.event) (sort_by hit_before hs))
              (select_everything (matched u f events query filters)
                ∙ matched_events events query filters asked)
            ∙ ap (map (λ (h : Hit). h.event)) (sort_by-map (scored p) hit_before found)
            ∙ events_scored p (sort_by (λ a b. hit_before (scored p a) (scored p b)) found))
  ]

  pub stream_events-IsEveryMatch :
      (events : List Event) (query : Str) (filters : Filters)
      → IsEveryMatch events query filters (documents_of (stream_events u f events query filters))
  stream_events-IsEveryMatch events query filters =
      let found = select (is_match query filters) events in
      subst (IsEveryMatch events query filters) (sym (stream_events-sort_by events query filters))
        (record {
          each_once = sort_by-perm (comes_before query) found;
          in_order = sort_by-IsSorted (comes_before query) (comes_before-IsWeakOrder query) found;
        })
