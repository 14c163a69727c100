-- ===== src/Access/Load/Laws.antt =====
-- access.go: what a table that `LoadAccessTableJSON` accepts holds.
use mathlib.Core.Path.{subst}
use mathlib.Core.Bool.{or-false, or_assoc, or_self_left}
use forward_go_sdk.Prelude.{
  ◌≡◌, refl, sym, ap, ◌∙◌, inl, inr, Bool, true, false, ◌||◌, some, List, [], ◌∷◌, arith,
  Bool-cases, All, and_true,
}
use forward_go_sdk.Prelude.Results.{ok, >>=-eq-ok, ok_inj}
use forward_go_sdk.Text.{Text, text_eq}
use forward_go_sdk.Text.Laws.{eq-text_eq, text_eq_refl}
use forward_go_sdk.Text.Maps.{get, set, get-set}
use forward_go_sdk.Access.{AccessOperation, AccessTable, qualified, network_role_ladder, is_nil}
use forward_go_sdk.Access.Load.{
  AccessTableDoc, has_key, is_valid_operation, load_operations, has_roles, has_operations,
  load_roles, load_tables, load_access_table,
}

-- Every entry stands under the qualified name of a valid operation.
abbrev pub Named : List (Text × AccessOperation) → Type 0
Named ops = All (λ e. (e.0 ≡ qualified e.1) × (is_valid_operation e.1 ≡ true)) ops

-- Every operation that a role names is in the table.
abbrev pub Known : List (Text × AccessOperation) → List (Text × List Text) → Type 0
Known ops roles = All (λ e. has_operations e.1 ops ≡ true) roles

All-set {ℓ κ} :
    {A : Type ℓ} (P : Text × A → Type κ) (key : Text) (v : A) (m : List (Text × A))
    → P (key, v)
    → All P m
    → All P (set key v m)
unfolding set
All-set P key v [] p h = (p, tt)
All-set P key v ((k, w) ∷ m) p h = elim (Bool-cases (text_eq k key)) [
  | inl b ↦ rw b (p, h.1)
  | inr b ↦ rw b (h.0, All-set P key v m p h.1)
]

or_left_comm : (a b c : Bool) → (a || (b || c)) ≡ (b || (a || c))
or_left_comm true true c = refl
or_left_comm true false c = refl
or_left_comm false true c = refl
or_left_comm false false c = refl

has_key-set {ℓ} :
    {A : Type ℓ} (key other : Text) (v : A) (m : List (Text × A))
    → has_key other (set key v m) ≡ (text_eq key other || has_key other m)
unfolding has_key set
has_key-set key other v [] = refl
has_key-set key other v ((k, w) ∷ m) = elim (Bool-cases (text_eq k key)) [
  | inl b ↦ rw (b, eq-text_eq k key b) (sym (or_self_left (text_eq key other) (has_key other m)))
  | inr b ↦
      rw (b, has_key-set key other v m)
        (or_left_comm (text_eq k other) (text_eq key other) (has_key other m))
]

has_key-get {ℓ} :
    {A : Type ℓ} (key : Text) (m : List (Text × A)) (v : A)
    → get key m ≡ some v
    → has_key key m ≡ true
unfolding get has_key
has_key-get key [] v h = cc
has_key-get key ((k, w) ∷ m) v h = elim (Bool-cases (text_eq k key)) [
  | inl b ↦ rw b refl
  | inr b ↦ rw b (has_key-get key m v (rw b at h))
]

load_operations-step :
    (op : AccessOperation) (rest : List AccessOperation) (m ops : List (Text × AccessOperation))
    → load_operations (op ∷ rest) m ≡ ok ops
    → (is_valid_operation op ≡ true)
      × (has_key (qualified op) m ≡ false)
      × (load_operations rest (set (qualified op) op m) ≡ ok ops)
unfolding load_operations
load_operations-step op rest m ops e = ground arith

load_operations-Named :
    (rest : List AccessOperation) (m ops : List (Text × AccessOperation))
    → Named m
    → load_operations rest m ≡ ok ops
    → Named ops
unfolding load_operations
load_operations-Named [] m ops h e = subst Named (ok_inj e) h
load_operations-Named (op ∷ rest) m ops h e =
    let (valid, new, p) = load_operations-step op rest m ops e in
    load_operations-Named rest (set (qualified op) op m) ops
      (All-set (λ x. (x.0 ≡ qualified x.1) × (is_valid_operation x.1 ≡ true)) (qualified op) op m
        (refl, valid) h)
      p

-- An operation under another key stays.
get-set_new :
    (op other : AccessOperation) (m : List (Text × AccessOperation)) (key : Text)
    → has_key (qualified op) m ≡ false
    → get key m ≡ some other
    → get key (set (qualified op) op m) ≡ some other
get-set_new op other m key new h =
    get-set (qualified op) key op m ∙ (elim (Bool-cases (text_eq (qualified op) key)) [
      | inl b ↦
          let same : qualified op ≡ key = eq-text_eq (qualified op) key b in
          let old : has_key (qualified op) m ≡ true =
            ap (λ k. has_key k m) same ∙ has_key-get key m other h in
          cc
      | inr b ↦ rw b h
    ])

-- What was stored stays, and each operation of the document is stored.
load_operations-get :
    (rest : List AccessOperation) (m ops : List (Text × AccessOperation))
    → load_operations rest m ≡ ok ops
    → ((key : Text) (op : AccessOperation) → get key m ≡ some op → get key ops ≡ some op)
      × All (λ op. get (qualified op) ops ≡ some op) rest
unfolding load_operations
load_operations-get [] m ops e = (λ key op h. ap (get key) (sym (ok_inj e)) ∙ h, tt)
load_operations-get (op ∷ rest) m ops e =
    let (valid, new, p) = load_operations-step op rest m ops e in
    let (keeps, stored) = load_operations-get rest (set (qualified op) op m) ops p in
    (
      λ key other h. keeps key other (get-set_new op other m key new h),
      (
        keeps (qualified op) op
            (get-set (qualified op) (qualified op) op m ∙ rw (text_eq_refl (qualified op)) refl),
        stored,
      ),
    )

load_roles-step :
    (ops : List (Text × AccessOperation)) (role : Text) (qs : List Text)
    (rest m roles : List (Text × List Text))
    → load_roles ops ((role, qs) ∷ rest) m ≡ ok roles
    → (has_operations qs ops ≡ true) × (load_roles ops rest (set role qs m) ≡ ok roles)
unfolding load_roles
load_roles-step ops role qs rest m roles e = ground arith

load_roles-Known :
    (ops : List (Text × AccessOperation)) (rest m roles : List (Text × List Text))
    → Known ops m
    → load_roles ops rest m ≡ ok roles
    → Known ops roles
unfolding load_roles
load_roles-Known ops [] m roles h e = subst (Known ops) (ok_inj e) h
load_roles-Known ops ((role, qs) ∷ rest) m roles h e =
    let (known, p) = load_roles-step ops role qs rest m roles e in
    load_roles-Known ops rest (set role qs m) roles
      (All-set (λ x. has_operations x.1 ops ≡ true) role qs m known h) p

load_roles-has_key :
    (ops : List (Text × AccessOperation)) (rest m roles : List (Text × List Text)) (key : Text)
    → load_roles ops rest m ≡ ok roles
    → has_key key roles ≡ (has_key key m || has_key key rest)
unfolding load_roles has_key
load_roles-has_key ops [] m roles key e =
    ap (has_key key) (sym (ok_inj e)) ∙ sym (or-false (has_key key m))
load_roles-has_key ops ((role, qs) ∷ rest) m roles key e =
    let (known, p) = load_roles-step ops role qs rest m roles e in
    load_roles-has_key ops rest (set role qs m) roles key p
    ∙ ap (λ b. b || has_key key rest) (has_key-set role key qs m)
    ∙ or_assoc (text_eq role key) (has_key key m) (has_key key rest)
    ∙ or_left_comm (text_eq role key) (has_key key m) (has_key key rest)

has_roles-loaded :
    (ops : List (Text × AccessOperation)) (names : List Text)
    (listed roles : List (Text × List Text))
    → load_roles ops listed [] ≡ ok roles
    → has_roles names listed ≡ true
    → has_roles names roles ≡ true
unfolding has_roles has_key
has_roles-loaded ops [] listed roles e h = refl
has_roles-loaded ops (name ∷ names) listed roles e h =
    let (first, rest) = and_true (has_key name listed) (has_roles names listed) h in
    rw (load_roles-has_key ops listed [] roles name e, first)
      (has_roles-loaded ops names listed roles e rest)

load_tables-eq-ok :
    (doc : AccessTableDoc) (ops : List (Text × AccessOperation)) (t : AccessTable)
    → load_tables doc ops ≡ ok t
    → (t.ops ≡ ops) × Known ops t.roles × (has_roles network_role_ladder t.roles ≡ true)
unfolding load_tables
load_tables-eq-ok doc ops t e = elim (Bool-cases (has_roles network_role_ladder doc.roles)) [
  | inl b ↦
      let (roles, p, q) = >>=-eq-ok (load_roles ops doc.roles []) _ (rw b at e) in
      subst
        (λ t. (t.ops ≡ ops) × Known ops t.roles × (has_roles network_role_ladder t.roles ≡ true))
        (ok_inj q)
        (
          refl,
          load_roles-Known ops doc.roles [] roles tt p,
          has_roles-loaded ops network_role_ladder doc.roles roles p b,
        )
  | inr b ↦ let q = rw b at e in cc
]

-- A table that is accepted holds each operation of the document under its qualified name, holds only
-- valid operations under their names, has every role of the ladder, and its roles name only
-- operations of the table.
pub load_access_table_lem :
    (doc : AccessTableDoc) (t : AccessTable)
    → load_access_table doc ≡ ok t
    → All (λ op. get (qualified op) t.ops ≡ some op) doc.operations
      × Named t.ops
      × Known t.ops t.roles
      × (has_roles network_role_ladder t.roles ≡ true)
unfolding load_access_table
load_access_table_lem doc t e = elim (Bool-cases (is_nil doc.operations || is_nil doc.roles)) [
  | inl b ↦ let q = rw b at e in cc
  | inr b ↦
      let (ops, p, q) = >>=-eq-ok (load_operations doc.operations []) _ (rw b at e) in
      let (same, known, ladder) = load_tables-eq-ok doc ops t q in
      subst
        (λ o.
          All (λ op. get (qualified op) o ≡ some op) doc.operations
          × Named o
          × Known o t.roles
          × (has_roles network_role_ladder t.roles ≡ true))
        (sym same)
        (
          (load_operations-get doc.operations [] ops p).1,
          load_operations-Named doc.operations [] ops tt p,
          known,
          ladder,
        )
]
