-- ===== src/Policy/Steered.antt =====
-- What the steering decides of the matches that the runtime gives.
use manglekit.Common.{◌≡◌, String, Option, none, some, List, []}
use manglekit.Policy.Best.{IsFirstBest}
use manglekit.Policy.Gate.{Match}
use manglekit.Policy.Steering.{Steer, proceed, retry, route, failed}

-- The text of a first match of the best tier.
abbrev pub IsBestText : String → List Match → Type 0
IsBestText t ms = (m : Match) × IsFirstBest m ms × (t ≡ m.reason)

-- What the hints of retries and the targets of routes, none if a query failed, come to.
abbrev pub IsSteered : Option (List Match) → Option (List Match) → Steer → Type 0
IsSteered (some rs) (some ts) proceed = (rs ≡ []) × (ts ≡ [])
IsSteered (some rs) (some ts) (retry hint) = IsBestText hint rs
IsSteered (some rs) (some ts) (route target) = (rs ≡ []) × IsBestText target ts
IsSteered (some rs) (some ts) failed = ⊥
IsSteered (some rs) none s = s ≡ failed
IsSteered none routes s = s ≡ failed
