-- ===== src/Access.antt =====
-- access.go: looking up an operation, the role ladder and `Access.Can`. A Go map is the list of its
-- entries in the order of an iteration, and the reason of an answer, a text for people, is left out.
pub mod Laws
pub mod Load
mod Examples
use forward_go_sdk.Prelude.{
  ℕ, suc, Bool, true, false, ◌&&◌, ◌||◌, not, Option, none, some, List, [], ◌∷◌, ◌++◌, leb,
  if◌then◌else◌,
}
use forward_go_sdk.Prelude.Results.{Result, ok, err}
use forward_go_sdk.Text.{Text, codes, text_eq, is_empty, is_member, trim_space, to_upper, contains}
use forward_go_sdk.Text.Maps.{get}

pub data Verdict : Type 0 where
  verdict_unknown verdict_yes verdict_no : Verdict

abbrev pub network_role_ladder : List Text
network_role_ladder =
    codes "LIMITED_READ_ONLY"
    ∷ codes "READ_ONLY"
    ∷ codes "OPERATOR"
    ∷ codes "WORKSPACE_OPERATOR"
    ∷ codes "ADMIN"
    ∷ []

-- strings.ToUpper(strings.TrimSpace(role))
unfoldable pub role_name : Text → Text
role_name role = to_upper (trim_space role)

unfoldable pub index_from : ℕ → Text → List Text → Option ℕ
index_from i role [] = none
index_from i role (name ∷ names) =
    let rest = index_from (suc i) role names in if text_eq name role then some i else rest

-- `ladderIndex`; `none` is the code's -1.
unfoldable pub ladder_index : Text → Option ℕ
ladder_index role = index_from 0 (role_name role) network_role_ladder

unfoldable pub compare_ranks : Option ℕ → Option ℕ → Verdict
compare_ranks none w = verdict_unknown
compare_ranks (some h) none = verdict_unknown
compare_ranks (some h) (some w) = if leb w h then verdict_yes else verdict_no

unfoldable pub network_role_at_least : Text → Text → Verdict
network_role_at_least have want = compare_ranks (ladder_index have) (ladder_index want)

pub record AccessOperation : Type 0 where
  pub scope : Text
  pub name : Text
  pub write : Bool
  pub facet : Text
  pub lowest_role : Text

abbrev pub network_scope : Text
network_scope = codes "NetworkOperation"

abbrev pub org_scope : Text
org_scope = codes "OrgOperation"

unfoldable pub qualified : AccessOperation → Text
qualified op = op.scope ++ codes "." ++ op.name

pub record AccessTable : Type 0 where
  pub ops : List (Text × AccessOperation)
  pub roles : List (Text × List Text)

pub data AccessError : Type 0 where
  both_scopes not_in_table network_id_required : AccessError

-- `network.Name != ""`, where a missing entry reads as an operation without a name.
unfoldable pub is_named : Option AccessOperation → Option AccessOperation
is_named none = none
is_named (some op) = if is_empty op.name then none else some op

unfoldable pub one_scope :
    Option AccessOperation → Option AccessOperation → Result AccessError AccessOperation
one_scope (some network) (some org) = err both_scopes
one_scope (some network) none = ok network
one_scope none (some org) = ok org
one_scope none none = err not_in_table

unfoldable pub by_bare_name : AccessTable → Text → Result AccessError AccessOperation
by_bare_name t name =
    if not (contains name (codes "."))
    then one_scope (is_named (get (codes "NetworkOperation." ++ name) t.ops))
        (is_named (get (codes "OrgOperation." ++ name) t.ops))
    else err not_in_table

unfoldable pub found_or :
    Option AccessOperation → Result AccessError AccessOperation → Result AccessError AccessOperation
found_or (some op) other = ok op
found_or none other = other

-- `AccessTable.Operation`.
unfoldable pub operation_of : AccessTable → Text → Result AccessError AccessOperation
operation_of t name = found_or (get (trim_space name) t.ops) (by_bare_name t (trim_space name))

pub record SessionRoles : Type 0 where
  pub system : List Text
  pub org : List Text
  pub network : List (Text × Text)
  pub supported_org_ids : List Text

pub record Access : Type 0 where
  pub table : Option AccessTable
  pub roles : SessionRoles
  pub impersonated : Bool

-- Where the code is behind a part of `Can`: it returned, or it goes on with `unknownRole`.
pub data Stage : Type 0 where
  returned : Verdict → Stage
  passed : Text → Stage

-- The loop over the org roles.
unfoldable pub org_stage : Bool → List Text → Text → Stage
org_stage write [] unknown_role = passed unknown_role
org_stage write (role ∷ roles) unknown_role =
    let rest = org_stage write roles unknown_role in
    let strange = org_stage write roles (codes "org role " ++ role) in
    if text_eq (role_name role) (codes "ADMIN")
    then returned verdict_yes
    else if text_eq (role_name role) (codes "READ_ONLY")
    then if not write then returned verdict_yes else rest
    else strange

-- `held`: whether the role holds the operation, and whether the table has the role.
unfoldable pub holds : Option (List Text) → Text → Bool × Bool
holds none operation = (false, false)
holds (some held) operation = (is_member operation held, true)

unfoldable pub held : AccessTable → AccessOperation → Text → Bool × Bool
held t op role = holds (get (role_name role) t.roles) (qualified op)

-- The role on the network of a network operation.
unfoldable pub network_stage : AccessTable → AccessOperation → Option Text → Text → Stage
network_stage t op none unknown_role = passed unknown_role
network_stage t op (some role) unknown_role =
    if is_empty (trim_space role)
    then returned verdict_unknown
    else if (held t op role).0
    then returned verdict_yes
    else if not (held t op role).1
    then passed (codes "network role " ++ role)
    else passed unknown_role

-- The loop over the network roles for an org operation.
unfoldable pub any_network_stage : AccessTable → AccessOperation → List (Text × Text) → Text → Stage
any_network_stage t op [] unknown_role = passed unknown_role
any_network_stage t op ((network, role) ∷ roles) unknown_role =
    let rest = any_network_stage t op roles unknown_role in
    let strange = any_network_stage t op roles (codes "network role " ++ role) in
    if (held t op role).0
    then returned verdict_yes
    else if not (held t op role).1 && not (is_empty (trim_space role))
    then strange
    else rest

unfoldable pub scope_stage : AccessTable → SessionRoles → AccessOperation → Text → Text → Stage
scope_stage t r op network_id unknown_role =
    if text_eq op.scope network_scope
    then network_stage t op (get network_id r.network) unknown_role
    else any_network_stage t op r.network unknown_role

unfoldable pub then_networks : AccessTable → SessionRoles → AccessOperation → Text → Stage → Stage
then_networks t r op network_id (returned v) = returned v
then_networks t r op network_id (passed unknown_role) = scope_stage t r op network_id unknown_role

unfoldable pub conclude : Stage → Verdict
conclude (returned v) = v
conclude (passed unknown_role) = if is_empty unknown_role then verdict_no else verdict_unknown

unfoldable pub is_nil {ℓ} : {A : Type ℓ} → List A → Bool
is_nil [] = true
is_nil (x ∷ xs) = false

-- The cases in which the roles do not tell.
unfoldable pub is_opaque : Bool → SessionRoles → Bool
is_opaque impersonated r =
    impersonated
    || not (is_nil r.supported_org_ids)
    || not (is_nil r.system)
    || is_nil r.org && is_nil r.network

unfoldable pub verdict_for : AccessTable → SessionRoles → Bool → AccessOperation → Text → Verdict
verdict_for t r impersonated op network_id =
    if is_opaque impersonated r
    then verdict_unknown
    else conclude (then_networks t r op network_id (org_stage op.write r.org []))

pub record AccessAnswer : Type 0 where
  pub verdict : Verdict
  pub operation : Text
  pub facet : Text
  pub write : Bool
  pub lowest_role : Text

abbrev pub no_answer : AccessAnswer
no_answer = record {
  verdict = verdict_unknown;
  operation = [];
  facet = [];
  write = false;
  lowest_role = [];
}

unfoldable pub answer_of : AccessOperation → Verdict → AccessAnswer
answer_of op verdict = record {
  verdict = verdict;
  operation = qualified op;
  facet = op.facet;
  write = op.write;
  lowest_role = op.lowest_role;
}

unfoldable pub can_operation :
    AccessTable
    → SessionRoles
    → Bool
    → Text
    → Result AccessError AccessOperation
    → AccessAnswer × Option AccessError
can_operation t r impersonated network_id (err e) = (no_answer, some e)
can_operation t r impersonated network_id (ok op) =
    if text_eq op.scope network_scope && is_empty network_id
    then (answer_of op verdict_unknown, some network_id_required)
    else (answer_of op (verdict_for t r impersonated op network_id), none)

unfoldable pub can_table :
    Option AccessTable → SessionRoles → Bool → Text → Text → AccessAnswer × Option AccessError
can_table none r impersonated operation network_id = (no_answer, none)
can_table (some t) r impersonated operation network_id =
    can_operation t r impersonated (trim_space network_id) (operation_of t operation)

-- `Access.Can`.
unfoldable pub can : Access → Text → Text → AccessAnswer × Option AccessError
can a operation network_id = can_table a.table a.roles a.impersonated operation network_id
