-- ===== src/Operations/Handles/Laws.antt =====
-- operations.go: what resuming makes of the handle of a resumed operation.
use forward_go_sdk.Prelude.{
  ℕ, ◌<◌, ◌==◌, ◌≡◌, arith, true, ◌||◌, some, some_inj, Bool-cases, inl, inr, if◌then◌else◌,
}
use mathlib.Core.Path.{subst}
use forward_go_sdk.Text.{is_empty, trim_space}
use forward_go_sdk.Text.Laws.{trim_space_idem}
use forward_go_sdk.Operations.Types.{
  CollectionHandle, CollectionState, Operation, SnapshotHandle, SnapshotState,
}
use forward_go_sdk.Operations.Handles.{
  is_valid, trimmed, resumed_state, resume_collection, resume_snapshot,
}

trimmed_idem : (h : CollectionHandle) → trimmed (trimmed h) ≡ trimmed h
unfolding trimmed
trimmed_idem h = simp trim_space_idem

is_valid-trimmed : (h : CollectionHandle) → is_valid (trimmed h) ≡ is_valid h
unfolding is_valid trimmed
is_valid-trimmed h = simp trim_space_idem

-- A clock that has been set stays.
stamp_stays :
    (p now later : ℕ)
    → 0 < now
    → (let q = if p == 0 then now else p in if q == 0 then later else q)
      ≡ (if p == 0 then now else p)
stamp_stays p now later h = ground arith

resumed_again :
    (now later : ℕ) (h : CollectionHandle)
    → 0 < now
    → resumed_state later (trimmed (resumed_state now (trimmed h)).handle)
      ≡ resumed_state now (trimmed h)
unfolding resumed_state trimmed
resumed_again now later h p = elim (Bool-cases (is_empty (trim_space h.snapshot_id))) [
  | inl e ↦ simp (e, trim_space_idem)
  | inr e ↦ simp (e, trim_space_idem, stamp_stays h.processing_started_at now later p)
]

resumed_valid :
    (now : ℕ) (h : CollectionHandle)
    → is_valid h ≡ true
    → is_valid (resumed_state now (trimmed h)).handle ≡ true
unfolding resumed_state trimmed is_valid
resumed_valid now h v = elim (Bool-cases (is_empty (trim_space h.snapshot_id))) [
  | inl e ↦ simp (e, trim_space_idem) v
  | inr e ↦ simp (e, trim_space_idem) v
]

-- If a handle can be resumed at a time above 0, the handle of the resumed collection operation,
-- resumed at any other time, gives the same operation again.
pub resume_collection_durable :
    (now later : ℕ) (h : CollectionHandle) (op : Operation CollectionState)
    → 0 < now
    → resume_collection now h ≡ some op
    → resume_collection later op.state.handle ≡ some op
unfolding resume_collection
resume_collection_durable now later h op p e = elim (Bool-cases (is_valid h)) [
  | inl v ↦
      subst (λ o. resume_collection later o.state.handle ≡ some o) (some_inj (rw v at e))
        (rw (resumed_valid now h v, resumed_again now later h p))
  | inr v ↦ cc (rw v at e)
]

-- If a handle can be resumed at a time above 0, the handle of the resumed snapshot operation,
-- resumed at any other time, gives the same operation again.
pub resume_snapshot_durable :
    (now later : ℕ) (h : SnapshotHandle) (op : Operation SnapshotState)
    → 0 < now
    → resume_snapshot now h ≡ some op
    → resume_snapshot later op.state.handle ≡ some op
unfolding resume_snapshot
resume_snapshot_durable now later h op p e =
    elim (Bool-cases (is_empty (trim_space h.network_id) || is_empty (trim_space h.snapshot_id))) [
      | inl v ↦ cc (rw v at e)
      | inr v ↦
          subst (λ o. resume_snapshot later o.state.handle ≡ some o) (some_inj (rw v at e))
            (simp (v, trim_space_idem, stamp_stays h.started_at now later p))
    ]
