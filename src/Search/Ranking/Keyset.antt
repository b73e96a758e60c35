-- ===== src/Search/Ranking/Keyset.antt =====
-- A cursor resumes a search, or a list of events, right behind the last row.
use mathlib.Core.Path.{subst}
use webhook_inbox.Prelude.{
  ℕ, ◌≡◌, sym, ap, ◌∙◌, Bool, true, false, ◌&&◌, ◌||◌, List, ◌∷◌, ◌++◌, map, none, some, take, leb,
  ◌==◌, arith, All, All-middle,
}
use webhook_inbox.Prelude.Sort.{
  select, sort_by, IsWeakOrder, IsSorted, Pairwise, sort_by-Pairwise, sort_by-IsSorted,
  select-sort_by, select-both, All-select, All-sort_by, select_behind, select_everything,
  select-Pairwise, map-Pairwise, select_same, Pairwise-map,
}
use webhook_inbox.Prelude.Text.{Str, Unicode}
use webhook_inbox.Event.{Event}
use webhook_inbox.Search.Query.{Formats, Filters, EventFilter, to_query, selects}
use webhook_inbox.Search.Ranking.{
  Hit, hit_before, newer, behind, is_behind, id_below, after_hit, after_event, matched, scored,
  probe, min_score, search, list_events, until, is_candidate, score_of,
}

pub hit_before-IsWeakOrder : IsWeakOrder hit_before
unfolding hit_before
hit_before-IsWeakOrder = record { asym = λ a b h. ground arith; cotrans = λ a b c h. ground arith }

pub newer-IsWeakOrder : IsWeakOrder newer
unfolding newer
newer-IsWeakOrder = record { asym = λ a b h. ground arith; cotrans = λ a b c h. ground arith }

-- The cursor that a hit leaves selects what the sort puts behind the hit.
is_behind-after_hit : (x h : Hit) → is_behind (some (after_hit x)) h ≡ hit_before x h
unfolding is_behind behind id_below after_hit hit_before
is_behind-after_hit x h = ground arith

-- No two events have one id, as the index on `_id` has it.
abbrev pub HasDistinctIds : List Event → Type 0
HasDistinctIds = Pairwise (λ a b. (a.id == b.id) ≡ false)

matched-ordered :
    (u : Unicode) (f : Formats) (events : List Event) (query : Str) (filters : Filters)
    → HasDistinctIds events
    → Pairwise (λ a b. (hit_before a b || hit_before b a) ≡ true) (matched u f events query filters)
unfolding matched hit_before scored score_of
matched-ordered u f events query filters distinct =
    let p = probe u query in
    let test : Event → Bool = λ e. selects (to_query u f filters) e && is_candidate p e.search in
    select-Pairwise (λ a b. (hit_before a b || hit_before b a) ≡ true)
      (λ h. leb (min_score p) h.score) (map (scored p) (select test events))
      (map-Pairwise (scored p) (λ a b. (hit_before a b || hit_before b a) ≡ true)
        (select test events) (λ x y other. ground (arith, other))
        (select-Pairwise (λ a b. (a.id == b.id) ≡ false) test events distinct))

module _ (u : Unicode) (f : Formats) (events : List Event) (query : Str) (filters : Filters) where
  pub search_sorted :
      search u f events query filters none none
      ≡ sort_by hit_before (matched u f events query filters)
  unfolding search is_behind
  search_sorted = ap (sort_by hit_before) (select_everything (matched u f events query filters))

  -- The search for the hits behind one gives the first of those that stand behind it in the whole
  -- result, where no two events have one id.
  pub search-after_hit :
      (limit : ℕ) (front : List Hit) (x : Hit) (rest : List Hit)
      → HasDistinctIds events
      → search u f events query filters none none ≡ front ++ x ∷ rest
      → search u f events query filters (some limit) (some (after_hit x)) ≡ take limit rest
  unfolding search
  search-after_hit limit front x rest distinct whole =
      let hits = matched u f events query filters in
      let split : sort_by hit_before hits ≡ front ++ x ∷ rest = sym search_sorted ∙ whole in
      ap (take limit) (
        ap (sort_by hit_before)
          (select_same (is_behind (some (after_hit x))) (hit_before x) hits (is_behind-after_hit x))
        ∙ sym (select-sort_by hit_before hit_before-IsWeakOrder (hit_before x) hits)
        ∙ ap (select (hit_before x)) split
        ∙ select_behind hit_before hit_before-IsWeakOrder front x rest
            (subst (IsSorted hit_before hit_before-IsWeakOrder) split
              (sort_by-IsSorted hit_before hit_before-IsWeakOrder hits))
            (subst (Pairwise (λ a b. (hit_before a b || hit_before b a) ≡ true)) split (
              sort_by-Pairwise (λ a b. (hit_before a b || hit_before b a) ≡ true) hit_before hits
                (λ a b h. ground (arith, h)) (matched-ordered u f events query filters distinct))))

-- No two events were received at one time.
abbrev pub HasDistinctTimes : List Event → Type 0
HasDistinctTimes = Pairwise (λ a b. (a.received_at == b.received_at) ≡ false)

-- Behind an event that the filters select, the cursor's bound replaces a weaker one.
selects-until :
    (q : EventFilter) (e x : Event)
    → selects q e ≡ true
    → selects (until (some (after_event e)) q) x ≡ (selects q x && newer e x)
unfolding selects until after_event newer
selects-until q e x h = ground (arith, h)

times_ordered :
    (test : Event → Bool) (events : List Event)
    → HasDistinctTimes events
    → Pairwise (λ a b. (newer a b || newer b a) ≡ true) (select test events)
unfolding newer
times_ordered test events distinct =
    Pairwise-map (select test events) (λ a b other. ground (arith, other))
      (select-Pairwise (λ a b. (a.received_at == b.received_at) ≡ false) test events distinct)

module _ (u : Unicode) (f : Formats) (events : List Event) (filters : Filters) where
  -- The list behind an event gives the first of those that stand behind it in the whole list, where
  -- no two events were received at one time.
  pub list_events-after_event :
      (limit : ℕ) (front : List Event) (e : Event) (rest : List Event)
      → HasDistinctTimes events
      → list_events u f events filters none none ≡ front ++ e ∷ rest
      → list_events u f events filters (some limit) (some (after_event e)) ≡ take limit rest
  unfolding list_events until
  list_events-after_event limit front e rest distinct whole =
      let q = to_query u f filters in
      let events_found = select (selects q) events in
      let (_, fits, _) =
        All-middle (λ x. selects q x ≡ true) front e rest
          (subst (All (λ x. selects q x ≡ true)) whole (
            All-sort_by (λ x. selects q x ≡ true) newer events_found
              (All-select (selects q) events (λ x h. h)))) in
      ap (take limit) (
        ap (sort_by newer) (
          select_same (selects (until (some (after_event e)) q)) (λ x. selects q x && newer e x)
            events (λ x. selects-until q e x fits)
          ∙ select-both (selects q) (newer e) events)
        ∙ sym (select-sort_by newer newer-IsWeakOrder (newer e) events_found)
        ∙ ap (select (newer e)) whole
        ∙ select_behind newer newer-IsWeakOrder front e rest
            (subst (IsSorted newer newer-IsWeakOrder) whole
              (sort_by-IsSorted newer newer-IsWeakOrder events_found))
            (subst (Pairwise (λ a b. (newer a b || newer b a) ≡ true)) whole (
              sort_by-Pairwise (λ a b. (newer a b || newer b a) ≡ true) newer events_found
                (λ a b h. ground (arith, h)) (times_ordered (selects q) events distinct))))
