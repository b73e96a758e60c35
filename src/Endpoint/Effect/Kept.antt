-- ===== src/Endpoint/Effect/Kept.antt =====
-- What every step keeps of the stored endpoints: they are well formed, and have ids of their own.
use mathlib.Core.Path.{subst}
use webhook_inbox.Prelude.{
  ◌≡◌, sym, Bool, false, List, [], ◌∷◌, ◌==◌, All, All-append, All-middle, All-replace, Bool-cases,
  inl, inr,
}
use webhook_inbox.Prelude.Sort.{Pairwise}
use webhook_inbox.Prelude.Pairwise.{Pairwise-snoc, Pairwise-replace}
use webhook_inbox.Mongo.Indexed.{remove_first}
use webhook_inbox.Mongo.Indexed.Kept.{remove_first-All}
use webhook_inbox.Event.{Event}
use webhook_inbox.Endpoint.{Endpoint}
use webhook_inbox.Endpoint.Validation.Configured.{IsConfigured}
use webhook_inbox.Retention.{RetentionConfig}
use webhook_inbox.Endpoint.Effect.{Effect, unchanged, added, removed, replaced, arrived}

Pairwise-remove_first :
    {A : Type 0} (R : A → A → Type 0) (test : A → Bool) (xs : List A)
    → Pairwise R xs
    → Pairwise R (remove_first test xs)
unfolding remove_first
Pairwise-remove_first R test [] h = tt
Pairwise-remove_first R test (x ∷ xs) (p, h) = elim (Bool-cases (test x)) [
  | inl hit ↦ rw hit h
  | inr miss ↦ rw miss (remove_first-All (R x) test xs p, Pairwise-remove_first R test xs h)
]

abbrev pub AreApart : Endpoint → Endpoint → Type 0
AreApart a b = (a.id == b.id) ≡ false

module _ (config : RetentionConfig) where
  pub Effect-AreConfigured :
      {endpoints endpoints' : List Endpoint} {events events' : List Event}
      → Effect config endpoints events endpoints' events'
      → All IsConfigured endpoints
      → All IsConfigured endpoints'
  Effect-AreConfigured (unchanged same _) h = subst (All IsConfigured) (sym same) h
  Effect-AreConfigured {endpoints = es} (added e fine _ _ made _) h =
      subst (All IsConfigured) (sym made) (All-append IsConfigured es (e ∷ []) h (fine, tt))
  Effect-AreConfigured {endpoints = es} (removed test made _) h =
      subst (All IsConfigured) (sym made) (remove_first-All IsConfigured test es h)
  Effect-AreConfigured (replaced old new put _ fine _) h =
      let there = subst (All IsConfigured) put.stood h in
      let (_, here, _) = All-middle IsConfigured put.front old put.back there in
      subst (All IsConfigured) (sym put.stands)
        (All-replace IsConfigured put.front old new put.back (fine here) there)
  Effect-AreConfigured (arrived _ _ same _) h = subst (All IsConfigured) (sym same) h

  pub Effect-AreApart :
      {endpoints endpoints' : List Endpoint} {events events' : List Event}
      → Effect config endpoints events endpoints' events'
      → Pairwise AreApart endpoints
      → Pairwise AreApart endpoints'
  Effect-AreApart (unchanged same _) h = subst (Pairwise AreApart) (sym same) h
  Effect-AreApart {endpoints = es} (added e _ fresh _ made _) h =
      subst (Pairwise AreApart) (sym made) (Pairwise-snoc AreApart es e h fresh.of_endpoints)
  Effect-AreApart {endpoints = es} (removed test made _) h =
      subst (Pairwise AreApart) (sym made) (Pairwise-remove_first AreApart test es h)
  Effect-AreApart (replaced old new put same _ _) h = subst (Pairwise AreApart) (sym put.stands) (
      Pairwise-replace AreApart put.front put.back old new (λ a p. rw same p) (λ a p. rw same p)
        (subst (Pairwise AreApart) put.stood h))
  Effect-AreApart (arrived _ _ same _) h = subst (Pairwise AreApart) (sym same) h
