-- ===== src/Operations/Discover.antt =====
-- operations.go: `discoverCollectionSnapshot` and `find`, on the list that the server returns,
-- newest first.
pub mod Laws
use mathlib.Core.Option
use forward_go_sdk.Prelude.{
  ℕ, Bool, true, false, ◌&&◌, ◌||◌, not, Option, none, some, List, [], ◌∷◌, ltb, if◌then◌else◌,
}
use forward_go_sdk.Text.{Text, codes, text_eq, is_empty, equal_fold}
use forward_go_sdk.Operations.Types.{Snapshot, CollectionHandle, parse_operation_time}

abbrev pub collection_trigger : Text
collection_trigger = codes "COLLECTION"

unfoldable pub is_collection : Snapshot → Bool
is_collection s = equal_fold s.processing_trigger collection_trigger

-- The snapshots in front of the first one with this ID, if there is one.
unfoldable pub before_baseline : Text → List Snapshot → Option (List Snapshot)
before_baseline baseline [] = none
before_baseline baseline (s ∷ ss) =
    let rest = before_baseline baseline ss in
    if text_eq s.id baseline then some [] else Option.map (λ l. s ∷ l) rest

module _ (parse_rfc3339 : Text → Option ℕ) where
  -- `createdAt` can be read, and is not before the start of the operation.
  unfoldable pub created_since : ℕ → Snapshot → Bool
  created_since started_at s = elim (parse_operation_time parse_rfc3339 s.created_at) [
    | none ↦ false
    | some t ↦ not (ltb t started_at)
  ]

  -- The first snapshot in the list that the collection can have made; `dated` asks for its date too.
  unfoldable pub first_collected : Bool → ℕ → List Snapshot → Option Snapshot
  unfolding created_since
  first_collected dated started_at [] = none
  first_collected dated started_at (s ∷ ss) =
      let rest = first_collected dated started_at ss in
      if (not dated || created_since started_at s) && is_collection s then some s else rest

  unfoldable pub discover : CollectionHandle → List Snapshot → Option Snapshot
  discover h ss = elim (before_baseline h.baseline_snapshot_id ss) [
    | some newer ↦ first_collected false h.started_at newer
    | none ↦ first_collected (not (is_empty h.baseline_snapshot_id)) h.started_at ss
  ]

-- The first snapshot with this ID.
unfoldable pub find : Text → List Snapshot → Option Snapshot
find id [] = none
find id (s ∷ ss) = if text_eq s.id id then some s else find id ss
