-- ===== src/Routecheck/Check.antt =====
-- cmd/routecheck/match.go: `check`. The names of the pins are given in the order of sort.Strings, and
-- the routes of a pin by a function.
pub mod Laws
use forward_go_sdk.Prelude.{
  ℕ, Bool, true, false, ◌&&◌, ◌||◌, not, List, [], ◌∷◌, ◌++◌, map, if◌then◌else◌,
}
use forward_go_sdk.Text.{Text, is_empty}
use forward_go_sdk.Routecheck.Segments.{Route, route_matches}
use forward_go_sdk.Routecheck.Allow.{AllowEntry, covers}

pub record Endpoint : Type 0 where
  pub method : Text
  pub route : Text
  pub symbols : List Text

pub record Finding : Type 0 where
  pub pin : Text
  pub method : Text
  pub route : Text
  pub symbols : List Text
  pub reason : Text

pub record Report : Type 0 where
  pub missing : List Finding
  pub allowed : List Finding
  pub conditions : List Finding
  pub unused : List AllowEntry

-- The routes that can serve an endpoint.
unfoldable pub hits : Endpoint → List Route → List Route
hits e [] = []
hits e (r ∷ rs) =
    let rest = hits e rs in if route_matches e.method e.route r then r ∷ rest else rest

unfoldable pub finding : Endpoint → Text → Text → Finding
finding e pin reason = record {
  pin = pin;
  method = e.method;
  route = e.route;
  symbols = e.symbols;
  reason = reason;
}

-- An entry of the allow list with its element of `used`.
abbrev pub Marked : Type 0
Marked = AllowEntry × Bool

-- The loop over the allow list: the marks, whether an entry covers, and the reason of the last that
-- does.
unfoldable pub use_entries : Endpoint → Text → List Marked → Bool → Text → List Marked × Bool × Text
use_entries e pin [] allowed reason = ([], allowed, reason)
use_entries e pin ((a, used) ∷ marks) allowed reason =
    let (rest, done, last) =
      (let c = covers a e.method e.route pin in
        use_entries e pin marks (allowed || c) (if c then a.reason else reason)) in
    ((a, used || covers a e.method e.route pin) ∷ rest, done, last)

-- The loop over the hits: whether all are gated, and the profile of the last before the end.
unfoldable pub gate : List Route → Text → Bool × Text
gate [] profile = (true, profile)
gate (r ∷ rs) profile =
    let rest = gate rs r.profile in if is_empty r.profile then (false, profile) else rest

abbrev pub State : Type 0
State = Report × List Marked

abbrev with_conditions : State → Finding → State
with_conditions (report, marks) f =
    (record report { conditions = report.conditions ++ f ∷ [] }, marks)

abbrev gated_state : State → Endpoint → Text → Bool × Text → State
gated_state state e pin (true, profile) = with_conditions state (finding e pin profile)
gated_state state e pin (false, profile) = state

abbrev allow_state : Report → Endpoint → Text → List Marked × Bool × Text → State
allow_state report e pin (marks, true, reason) =
    (record report { allowed = report.allowed ++ finding e pin reason ∷ [] }, marks)
allow_state report e pin (marks, false, reason) =
    (record report { missing = report.missing ++ finding e pin reason ∷ [] }, marks)

-- What follows for an endpoint at a pin, given the hits.
unfoldable pub by_hits : State → Endpoint → Text → List Route → State
by_hits (report, marks) e pin [] = allow_state report e pin (use_entries e pin marks false [])
by_hits state e pin (r ∷ rs) = gated_state state e pin (gate (r ∷ rs) [])

module _ (mappings : Text → List Route) where
  unfoldable pub check_pins : State → Endpoint → List Text → State
  check_pins state e [] = state
  check_pins state e (pin ∷ pins) = check_pins (by_hits state e pin (hits e (mappings pin))) e pins

  unfoldable pub check_endpoints : State → List Text → List Endpoint → State
  check_endpoints state pins [] = state
  check_endpoints state pins (e ∷ es) = check_endpoints (check_pins state e pins) pins es

unfoldable pub unused_entries : List Marked → List AllowEntry
unused_entries [] = []
unused_entries ((a, used) ∷ marks) =
    let rest = unused_entries marks in if used then rest else a ∷ rest

abbrev start : List AllowEntry → State
start allow = (
  record { missing = []; allowed = []; conditions = []; unused = [] },
  map (λ a. (a, false)) allow,
)

abbrev finish : State → Report
finish (report, marks) = record report { unused = report.unused ++ unused_entries marks }

-- `check`
unfoldable pub check : List Endpoint → List Text → (Text → List Route) → List AllowEntry → Report
check endpoints pins mappings allow = finish (check_endpoints mappings (start allow) pins endpoints)
