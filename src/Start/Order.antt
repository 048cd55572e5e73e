-- ===== src/Start/Order.antt =====
-- cmd/waypoint/serve.go with waypoint.New, Database.New and migrations.Up: the order of what the start
-- of the server does.
use waypoint_be.Base.{◌≡◌, ◌⊎◌, Bool, true, false, Option, none, some, List, [], ◌∷◌, ok, err}
use waypoint_be.Start.{
  Event, requested_discovery, called_keyfunc, opened_migrate, ran_migrate, closed_migrate,
  opened_pool, pinged_pool, closed_pool, listened, Started,
}

-- How far the start has come: nothing is open, the migration is open, it has been closed, the pool
-- is open, it has been pinged, the server has listened, the pool has been closed.
pub data Phase : Type 0 where
  starting migrating settled pooled reachable serving stopped : Phase

-- What may be done in a phase, and the phase after it.
unfoldable pub advance : Event → Phase → Option Phase
advance requested_discovery starting = some starting
advance called_keyfunc starting = some starting
advance opened_migrate starting = some migrating
advance ran_migrate migrating = some migrating
advance closed_migrate migrating = some settled
advance opened_pool starting = some pooled
advance opened_pool settled = some pooled
advance pinged_pool pooled = some reachable
advance (listened _ _) reachable = some serving
advance closed_pool reachable = some stopped
advance closed_pool serving = some stopped
advance _ _ = none

-- Neither the migration nor the pool is open.
unfoldable pub holds_nothing : Phase → Bool
holds_nothing starting = true
holds_nothing settled = true
holds_nothing stopped = true
holds_nothing _ = false

-- Where the events lead, if each is made in a phase that allows it.
unfoldable pub walk : Phase → List Event → Option Phase
unfolding advance
walk p [] = some p
walk p (e ∷ es) = elim (advance e p) [ none ↦ none | some q ↦ walk q es ]

-- The events lead from a phase to one of which `Q` holds.
abbrev pub Reaches : Phase → (Phase → Type 0) → List Event → Type 0
Reaches p Q es = (q : Phase) × (walk p es ≡ some q) × Q q

abbrev pub HoldsNothing : Phase → Type 0
HoldsNothing q = holds_nothing q ≡ true

-- A part of the start leads to a phase of which `Q` holds where it succeeds, and holds nothing
-- where it fails.
unfoldable Leads : {A : Type 0} → Phase → (Phase → Type 0) → Started A → Type 0
Leads p Q (ok a, es) = Reaches p Q es
Leads p Q (err e, es) = Reaches p HoldsNothing es

abbrev At : Phase → Phase → Type 0
At p q = q ≡ p

-- Where the pool may be opened.
abbrev Poolable : Phase → Type 0
Poolable q = (q ≡ starting) ⊎ (q ≡ settled)
