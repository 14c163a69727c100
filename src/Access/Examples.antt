-- ===== src/Access/Examples.antt =====
-- The theorem on `Access.Can` for one account and a table of two operations.
use forward_go_sdk.Access.{
  can_table, can_operation, found_or, by_bare_name, one_scope, is_named, compare_ranks,
  ladder_index, index_from, role_name,
}
use forward_go_sdk.Text.Maps.{get}
use forward_go_sdk.Text.{contains, to_upper}
use forward_go_sdk.Prelude.{◌≡◌, refl, ◌⊎◌, none, some, [], ◌∷◌, true, false, ◌&&◌, if◌then◌else◌}
use forward_go_sdk.Prelude.Results.{ok, err}
use forward_go_sdk.Text.{
  contains, has_prefix, is_member, is_space, to_upper, to_upper_code, trim_left, trim_right, codes,
  text_eq, is_empty, trim_space,
}
use forward_go_sdk.Access.{
  verdict_unknown, verdict_yes, verdict_no, network_role_at_least, AccessOperation, AccessTable,
  AccessError, network_id_required, network_scope, org_scope, operation_of, SessionRoles,
  verdict_for, is_opaque, is_nil, conclude, then_networks, any_network_stage, held, holds,
  network_stage, org_stage, qualified, role_name, scope_stage, Access, no_answer, answer_of, can,
}
use forward_go_sdk.Access.{network_role_ladder}
use forward_go_sdk.Access.Load.{
  AccessTableDoc, load_access_table, load_operations, load_tables, load_roles, has_roles,
  has_operations, has_key, is_valid_operation,
}
use forward_go_sdk.Access.Load.Laws.{Named, Known, load_access_table_lem}
use forward_go_sdk.Text.Maps.{set}
use forward_go_sdk.Prelude.{All}
use forward_go_sdk.Access.Laws.{judge, can_lem}

abbrev run_check : AccessOperation
run_check = record {
  scope = network_scope;
  name = codes "RUN";
  write = true;
  facet = codes "BASE";
  lowest_role = codes "OPERATOR";
}

abbrev list_users : AccessOperation
list_users = record {
  scope = org_scope;
  name = codes "USERS";
  write = false;
  facet = codes "BASE";
  lowest_role = [];
}

abbrev table : AccessTable
table = record {
  ops = (codes "NetworkOperation.RUN", run_check) ∷ (codes "OrgOperation.USERS", list_users) ∷ [];
  roles = (codes "READ_ONLY", []) ∷ (codes "OPERATOR", codes "NetworkOperation.RUN" ∷ []) ∷ [];
}

abbrev roles : SessionRoles
roles = record {
  system = [];
  org = [];
  network =
      (codes "1", codes "operator")
      ∷ (codes "2", codes "READ_ONLY")
      ∷ (codes "3", codes "NEW")
      ∷ [];
  supported_org_ids = [];
}

abbrev access : Access
access = record { table = some table; roles = roles; impersonated = false }

-- The verdicts on the three networks, and on an org operation, with a role that the table lacks.
verdicts :
    (can access (codes "RUN") (codes "1")).0.verdict
      ∷ (can access (codes "RUN") (codes "2")).0.verdict
      ∷ (can access (codes "RUN") (codes "3")).0.verdict
      ∷ (can access (codes "USERS") []).0.verdict
      ∷ []
    ≡ verdict_yes ∷ verdict_no ∷ verdict_unknown ∷ verdict_unknown ∷ []
unfolding can can_table can_operation operation_of found_or get text_eq trim_space by_bare_name
    contains one_scope is_named verdict_for is_opaque is_nil conclude then_networks answer_of
    any_network_stage held holds network_stage org_stage qualified role_name scope_stage has_prefix
    is_empty is_member is_space to_upper to_upper_code trim_left trim_right
verdicts = refl

needs_network :
    can access (codes "RUN") (codes " ")
    ≡ (answer_of run_check verdict_unknown, some network_id_required)
unfolding can can_table can_operation operation_of found_or get text_eq trim_space by_bare_name
    contains one_scope is_named
needs_network = refl

operator_reads : network_role_at_least (codes " operator") (codes "READ_ONLY") ≡ verdict_yes
unfolding network_role_at_least compare_ranks ladder_index index_from text_eq role_name to_upper
    trim_space
operator_reads = refl

can_lem_example :
    ((e : AccessError) × (operation_of table (codes "RUN") ≡ err e)
      × (can access (codes "RUN") (codes "1") ≡ (no_answer, some e)))
    ⊎ ((op : AccessOperation) × (operation_of table (codes "RUN") ≡ ok op)
        × (can access (codes "RUN") (codes "1") ≡ (
            if text_eq op.scope network_scope && is_empty (trim_space (codes "1"))
            then (answer_of op verdict_unknown, some network_id_required)
            else (answer_of op (judge table roles false op (trim_space (codes "1"))), none))))
can_lem_example = can_lem table roles false (codes "RUN") (codes "1")

-- A document with the two operations and the roles of the ladder.
abbrev document : AccessTableDoc
document = record {
  operations = run_check ∷ list_users ∷ [];
  roles =
      (codes "LIMITED_READ_ONLY", [])
      ∷ (codes "READ_ONLY", [])
      ∷ (codes "OPERATOR", codes "NetworkOperation.RUN" ∷ [])
      ∷ (codes "WORKSPACE_OPERATOR", codes "NetworkOperation.RUN" ∷ [])
      ∷ (codes "ADMIN", codes "NetworkOperation.RUN" ∷ codes "OrgOperation.USERS" ∷ [])
      ∷ [];
}

abbrev loaded : AccessTable
loaded = record {
  ops = (codes "NetworkOperation.RUN", run_check) ∷ (codes "OrgOperation.USERS", list_users) ∷ [];
  roles = document.roles;
}

document_loads : load_access_table document ≡ ok loaded
unfolding load_access_table is_nil load_operations load_tables load_roles has_roles has_operations
    has_key is_valid_operation qualified set text_eq is_empty
document_loads = refl

load_access_table_lem_example :
    All (λ op. get (qualified op) loaded.ops ≡ some op) document.operations
    × Named loaded.ops
    × Known loaded.ops loaded.roles
    × (has_roles network_role_ladder loaded.roles ≡ true)
load_access_table_lem_example = load_access_table_lem document loaded document_loads
