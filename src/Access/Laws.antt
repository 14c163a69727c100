-- ===== src/Access/Laws.antt =====
-- access.go: the verdict of `Access.Can`, without its loops.
use mathlib.Core.Bool.{and-true, and-false}
use forward_go_sdk.Prelude.{
  ◌≡◌, refl, ap, ◌∙◌, inl, inr, Bool, true, false, ◌&&◌, ◌||◌, not, Option, none, some, List, [],
  ◌∷◌, ◌⊎◌, ◌++◌, arith, if◌then◌else◌, Bool-cases, some_inj,
}
use forward_go_sdk.Prelude.Results.{Result, ok, err}
use forward_go_sdk.Text.{Text, codes, text_eq, is_empty, trim_space}
use forward_go_sdk.Text.Maps.{get}
use forward_go_sdk.Access.{
  Verdict, verdict_unknown, verdict_yes, verdict_no, role_name, AccessOperation, network_scope,
  AccessTable, SessionRoles, Stage, returned, passed, org_stage, held, network_stage,
  any_network_stage, scope_stage, AccessError, no_answer, network_id_required, operation_of,
  answer_of, can_table, can_operation, can, then_networks, conclude, is_opaque, verdict_for,
}

abbrev pub any_of {ℓ} : {A : Type ℓ} → (A → Bool) → List A → Bool
any_of p [] = false
any_of p (x ∷ xs) = p x || any_of p xs

abbrev pub all_of {ℓ} : {A : Type ℓ} → (A → Bool) → List A → Bool
all_of p [] = true
all_of p (x ∷ xs) = p x && all_of p xs

-- Whether an org role gives the operation, and whether it is one of the two that the SDK knows.
abbrev pub org_gives : Bool → Text → Bool
org_gives write role =
    text_eq (role_name role) (codes "ADMIN")
    || text_eq (role_name role) (codes "READ_ONLY") && not write

abbrev pub is_org_role : Text → Bool
is_org_role role =
    text_eq (role_name role) (codes "ADMIN") || text_eq (role_name role) (codes "READ_ONLY")

abbrev is_blank : Text → Bool
is_blank role = is_empty (trim_space role)

-- Whether the role on a network gives a network operation, and whether it is known.
abbrev pub network_gives : AccessTable → AccessOperation → Option Text → Bool
network_gives t op none = false
network_gives t op (some role) = not (is_blank role) && (held t op role).0

abbrev pub network_known : AccessTable → AccessOperation → Option Text → Bool
network_known t op none = true
network_known t op (some role) = not (is_blank role) && (held t op role).1

abbrev pub gives : AccessTable → SessionRoles → AccessOperation → Text → Bool
gives t r op network_id =
    any_of (org_gives op.write) r.org
    || (if text_eq op.scope network_scope
        then network_gives t op (get network_id r.network)
        else any_of (λ e. (held t op e.1).0) r.network)

abbrev pub all_known : AccessTable → SessionRoles → AccessOperation → Text → Bool
all_known t r op network_id =
    all_of is_org_role r.org
    && (if text_eq op.scope network_scope
        then network_known t op (get network_id r.network)
        else all_of (λ e. (held t op e.1).1 || is_blank e.1) r.network)

-- A stage by what `conclude` reads of it: the verdict that it returned, or whether `unknownRole` is
-- empty.
abbrev Outcome : Type 0
Outcome = Option Verdict × Bool

outcome : Stage → Outcome
outcome (returned v) = (some v, true)
outcome (passed u) = (none, is_empty u)

abbrev by_tests : Bool → Bool → Bool → Outcome
by_tests grants known empty = if grants then (some verdict_yes, true) else (none, empty && known)

org_outcome :
    (write : Bool) (roles : List Text) (u : Text)
    → outcome (org_stage write roles u)
      ≡ by_tests (any_of (org_gives write) roles) (all_of is_org_role roles) (is_empty u)
unfolding org_stage outcome is_empty
org_outcome write [] u = rw (and-true (is_empty u)) refl
org_outcome write (role ∷ roles) u =
    let strange = org_outcome write roles (codes "org role " ++ role) in
    let rest = org_outcome write roles u in
    elim (Bool-cases (text_eq (role_name role) (codes "ADMIN"))) [
      | inl a ↦ rw a refl
      | inr a ↦ rw a (elim (Bool-cases (text_eq (role_name role) (codes "READ_ONLY"))) [
        | inl b ↦ rw b (elim (Bool-cases write) [ inl c ↦ rw c rest | inr c ↦ rw c refl ])
        | inr b ↦ rw (b, and-false (is_empty u)) strange
      ])
    ]

-- The verdict by whether a role gives the operation and whether all roles are known.
abbrev pub verdict_by : Bool → Bool → Verdict
verdict_by grants known =
    if grants then verdict_yes else if known then verdict_no else verdict_unknown

network_verdict :
    (t : AccessTable) (op : AccessOperation) (role : Option Text) (u : Text)
    → conclude (network_stage t op role u)
      ≡ verdict_by (network_gives t op role) (is_empty u && network_known t op role)
unfolding network_stage conclude is_empty
network_verdict t op none u = rw (and-true (is_empty u)) refl
network_verdict t op (some role) u = ground (arith, and-false (is_empty u), and-true (is_empty u))

any_network_verdict :
    (t : AccessTable) (op : AccessOperation) (roles : List (Text × Text)) (u : Text)
    → conclude (any_network_stage t op roles u)
      ≡ verdict_by
          (any_of (λ e. (held t op e.1).0) roles)
          (is_empty u && all_of (λ e. (held t op e.1).1 || is_blank e.1) roles)
unfolding any_network_stage conclude is_empty
any_network_verdict t op [] u = rw (and-true (is_empty u)) refl
any_network_verdict t op ((network, role) ∷ roles) u = ground (
  arith,
  any_network_verdict t op roles u,
  any_network_verdict t op roles (codes "network role " ++ role),
  and-false (is_empty u),
)

scope_verdict :
    (t : AccessTable) (r : SessionRoles) (op : AccessOperation) (network_id u : Text)
    → conclude (scope_stage t r op network_id u)
      ≡ verdict_by
          (if text_eq op.scope network_scope
            then network_gives t op (get network_id r.network)
            else any_of (λ e. (held t op e.1).0) r.network)
          (is_empty u
            && (if text_eq op.scope network_scope
                then network_known t op (get network_id r.network)
                else all_of (λ e. (held t op e.1).1 || is_blank e.1) r.network))
unfolding scope_stage
scope_verdict t r op network_id u = elim (Bool-cases (text_eq op.scope network_scope)) [
  | inl b ↦ rw b (network_verdict t op (get network_id r.network) u)
  | inr b ↦ rw b (any_network_verdict t op r.network u)
]

-- The verdict behind the org roles, from what is known of their stage.
networks_verdict :
    (t : AccessTable) (r : SessionRoles) (op : AccessOperation) (network_id : Text) (s : Stage)
    (grants known : Bool)
    → outcome s ≡ by_tests grants known true
    → conclude (then_networks t r op network_id s)
      ≡ verdict_by
          (grants
            || (if text_eq op.scope network_scope
                then network_gives t op (get network_id r.network)
                else any_of (λ e. (held t op e.1).0) r.network))
          (known
            && (if text_eq op.scope network_scope
                then network_known t op (get network_id r.network)
                else all_of (λ e. (held t op e.1).1 || is_blank e.1) r.network))
unfolding then_networks conclude outcome
networks_verdict t r op network_id (returned v) true known h = some_inj (ap (λ o. o.0) h)
networks_verdict t r op network_id (returned v) false known h =
    let q : some v ≡ none = ap (λ o. o.0) h in cc
networks_verdict t r op network_id (passed u) true known h =
    let q : none ≡ some verdict_yes = ap (λ o. o.0) h in cc
networks_verdict t r op network_id (passed u) false known h =
    scope_verdict t r op network_id u ∙ rw (ap (λ o. o.1) h) refl

verdict_for_lem :
    (t : AccessTable) (r : SessionRoles) (impersonated : Bool) (op : AccessOperation)
    (network_id : Text)
    → verdict_for t r impersonated op network_id ≡ (
        if is_opaque impersonated r
        then verdict_unknown
        else verdict_by (gives t r op network_id) (all_known t r op network_id))
unfolding verdict_for is_empty
verdict_for_lem t r impersonated op network_id =
    rw
      (networks_verdict t r op network_id (org_stage op.write r.org [])
        (any_of (org_gives op.write) r.org) (all_of is_org_role r.org)
        (org_outcome op.write r.org []))
      refl

Result-cases : {E A : Type 0} (x : Result E A) → ((e : E) × (x ≡ err e)) ⊎ ((a : A) × (x ≡ ok a))
Result-cases (err e) = inl (e, refl)
Result-cases (ok a) = inr (a, refl)

-- The verdict without the loops, for an account whose roles do or do not tell.
abbrev pub judge : AccessTable → SessionRoles → Bool → AccessOperation → Text → Verdict
judge t r impersonated op network_id =
    if is_opaque impersonated r
    then verdict_unknown
    else verdict_by (gives t r op network_id) (all_known t r op network_id)

-- `Can` fails if the table lacks the operation, or a network operation comes without a network.
-- Otherwise it says yes exactly if the roles tell and one of them gives the operation, and no exactly
-- if the roles tell, those that count are all known and none gives it.
pub can_lem :
    (t : AccessTable) (r : SessionRoles) (impersonated : Bool) (operation network_id : Text)
    → ((e : AccessError) × (operation_of t operation ≡ err e)
        × (can
              (record { table = some t; roles = r; impersonated = impersonated })
              operation
              network_id
            ≡ (no_answer, some e)))
      ⊎ ((op : AccessOperation) × (operation_of t operation ≡ ok op)
          × (can
                (record { table = some t; roles = r; impersonated = impersonated })
                operation
                network_id
              ≡ (if text_eq op.scope network_scope && is_empty (trim_space network_id)
                  then (answer_of op verdict_unknown, some network_id_required)
                  else (answer_of op (judge t r impersonated op (trim_space network_id)), none))))
unfolding can can_table can_operation
can_lem t r impersonated operation network_id = elim (Result-cases (operation_of t operation)) [
  | inl (e, p) ↦ inl (e, p, rw p refl)
  | inr (op, p) ↦
      inr (op, p, rw (p, verdict_for_lem t r impersonated op (trim_space network_id)) refl)
]
