-- ===== src/Access/Load.antt =====
-- access.go: `LoadAccessTableJSON` behind the reading and decoding of the file.
pub mod Laws
use forward_go_sdk.Prelude.{
  Bool, true, false, ◌&&◌, ◌||◌, not, Option, none, some, List, [], ◌∷◌, if◌then◌else◌,
}
use forward_go_sdk.Prelude.Results.{Result, ok, err, ◌>>=◌}
use forward_go_sdk.Text.{Text, text_eq, is_empty}
use forward_go_sdk.Text.Maps.{get, set}
use forward_go_sdk.Access.{
  AccessOperation, AccessTable, network_scope, org_scope, qualified, network_role_ladder, is_nil,
}

pub record AccessTableDoc : Type 0 where
  pub operations : List AccessOperation
  pub roles : List (Text × List Text)

pub data LoadError : Type 0 where
  no_operations_or_roles invalid_operation operation_twice no_ladder_role unknown_operation :
      LoadError

-- The code's `_, ok := m[key]`.
unfoldable pub has_key {ℓ} : {A : Type ℓ} → Text → List (Text × A) → Bool
has_key key [] = false
has_key key ((k, v) ∷ m) = text_eq k key || has_key key m

unfoldable pub is_valid_operation : AccessOperation → Bool
is_valid_operation op =
    (text_eq op.scope network_scope || text_eq op.scope org_scope) && not (is_empty op.name)

unfoldable pub load_operations :
    List AccessOperation
    → List (Text × AccessOperation)
    → Result LoadError (List (Text × AccessOperation))
load_operations [] ops = ok ops
load_operations (op ∷ rest) ops =
    let on = load_operations rest (set (qualified op) op ops) in
    if not (is_valid_operation op)
    then err invalid_operation
    else if has_key (qualified op) ops
    then err operation_twice
    else on

unfoldable pub has_roles : List Text → List (Text × List Text) → Bool
has_roles [] roles = true
has_roles (name ∷ names) roles = has_key name roles && has_roles names roles

unfoldable pub has_operations : List Text → List (Text × AccessOperation) → Bool
has_operations [] ops = true
has_operations (q ∷ qs) ops = has_key q ops && has_operations qs ops

unfoldable pub load_roles :
    List (Text × AccessOperation)
    → List (Text × List Text)
    → List (Text × List Text)
    → Result LoadError (List (Text × List Text))
load_roles ops [] roles = ok roles
load_roles ops ((role, qs) ∷ rest) roles =
    let on = load_roles ops rest (set role qs roles) in
    if has_operations qs ops then on else err unknown_operation

unfoldable pub load_tables :
    AccessTableDoc → List (Text × AccessOperation) → Result LoadError AccessTable
load_tables doc ops =
    if has_roles network_role_ladder doc.roles
    then load_roles ops doc.roles [] >>= (λ roles. ok (record { ops = ops; roles = roles }))
    else err no_ladder_role

unfoldable pub load_access_table : AccessTableDoc → Result LoadError AccessTable
load_access_table doc =
    if is_nil doc.operations || is_nil doc.roles
    then err no_operations_or_roles
    else load_operations doc.operations [] >>= (λ ops. load_tables doc ops)
