-- ===== src/Operations/Discover/Laws.antt =====
-- What `discover` and `find` return, against their meaning on the list.
use mathlib.Core.Option
use mathlib.Core.List.{append_assoc}
use forward_go_sdk.Prelude.{
  ℕ, ◌≡◌, refl, sym, ap, ◌∙◌, ◌⊎◌, inl, inr, Bool, true, false, ◌&&◌, ◌||◌, not, Option, none, some,
  List, [], ◌∷◌, ◌++◌, All, some_inj, Bool-cases, Option-cases,
}
use mathlib.Core.Path.{subst}
use forward_go_sdk.Text.{Text, text_eq, is_empty}
use forward_go_sdk.Text.Laws.{eq-text_eq}
use forward_go_sdk.Operations.Types.{Snapshot, CollectionHandle}
use forward_go_sdk.Operations.Discover.{
  before_baseline, created_since, first_collected, discover, find, is_collection,
}

abbrev pub NotBaseline : Text → Snapshot → Type 0
NotBaseline baseline s = text_eq s.id baseline ≡ false

-- A list with the baseline `s`, the first with its ID, behind `newer`.
abbrev pub SplitAt : Text → List Snapshot → List Snapshot → Type 0
SplitAt b ss newer =
    (s : Snapshot) × (rest : List Snapshot) × (ss ≡ newer ++ s ∷ rest)
    × (text_eq s.id b ≡ true)
    × All (NotBaseline b) newer

before_baseline-some :
    (b : Text) (ss newer : List Snapshot) → before_baseline b ss ≡ some newer → SplitAt b ss newer
unfolding before_baseline
before_baseline-some b [] newer h = cc
before_baseline-some b (s ∷ ss) newer h = elim (Bool-cases (text_eq s.id b)) [
  | inl e ↦ subst (SplitAt b (s ∷ ss)) (some_inj (rw e at h)) (s, ss, refl, e, tt)
  | inr e ↦ go (before_baseline b ss) (before_baseline-some b ss) (rw e at h) e
]
  where
    go :
        (m : Option (List Snapshot))
        → ((l : List Snapshot) → m ≡ some l → SplitAt b ss l)
        → Option.map (λ l. s ∷ l) m ≡ some newer
        → NotBaseline b s
        → SplitAt b (s ∷ ss) newer
    go none ih q e = cc
    go (some l) ih q e =
        let (base, rest, split, is_base, fresh) = ih l refl in
        subst (SplitAt b (s ∷ ss)) (some_inj q)
          (base, rest, ap (λ (l : List Snapshot). s ∷ l) split, is_base, (e, fresh))

before_baseline-none :
    (b : Text) (ss : List Snapshot) → before_baseline b ss ≡ none → All (NotBaseline b) ss
unfolding before_baseline
before_baseline-none b [] h = tt
before_baseline-none b (s ∷ ss) h = elim (Bool-cases (text_eq s.id b)) [
  | inl e ↦ cc (rw e at h)
  | inr e ↦ (
    e,
    before_baseline-none b ss
        ((Option.map-eq-none_iff (λ l. s ∷ l) (before_baseline b ss)).0 (rw e at h)),
  )
]

All-prefix :
    (P : Snapshot → Type 0) (s : Snapshot) (front back : List Snapshot)
    → All P (front ++ s ∷ back)
    → All P (front ++ s ∷ [])
All-prefix P s [] back h = (h.0, tt)
All-prefix P s (x ∷ front) back h = (h.0, All-prefix P s front back h.1)

module _ (parse : Text → Option ℕ) where
  abbrev pub is_candidate : Bool → ℕ → Snapshot → Bool
  is_candidate dated started s = (not dated || created_since parse started s) && is_collection s

  -- The first candidate of a list, with what stands before and behind it.
  first_collected-some :
      (dated : Bool) (started : ℕ) (ss : List Snapshot) (s : Snapshot)
      → first_collected parse dated started ss ≡ some s
      → (front back : List Snapshot) × (ss ≡ front ++ s ∷ back)
        × (is_candidate dated started s ≡ true)
        × All (λ x. is_candidate dated started x ≡ false) front
  unfolding first_collected
  first_collected-some dated started [] s h = cc
  first_collected-some dated started (x ∷ ss) s h =
      elim (Bool-cases (is_candidate dated started x)) [
        | inl e ↦
            subst
              (λ y.
                (front back : List Snapshot) × (x ∷ ss ≡ front ++ y ∷ back)
                × (is_candidate dated started y ≡ true)
                × All (λ x. is_candidate dated started x ≡ false) front)
              (some_inj (rw e at h)) ([], ss, refl, e, tt)
        | inr e ↦
            let (front, back, split, found, first) =
              first_collected-some dated started ss s (rw e at h) in
            (x ∷ front, back, ap (λ (l : List Snapshot). x ∷ l) split, found, (e, first))
      ]

  first_collected-none :
      (dated : Bool) (started : ℕ) (ss : List Snapshot)
      → first_collected parse dated started ss ≡ none
      → All (λ x. is_candidate dated started x ≡ false) ss
  unfolding first_collected
  first_collected-none dated started [] h = tt
  first_collected-none dated started (x ∷ ss) h = elim (Bool-cases (is_candidate dated started x)) [
    | inl e ↦ cc (rw e at h)
    | inr e ↦ (e, first_collected-none dated started ss (rw e at h))
  ]

  -- A snapshot needs a date of its own when the baseline is named and missing from the list.
  abbrev pub is_missing : Option (List Snapshot) → Bool
  is_missing none = true
  is_missing (some _) = false

  abbrev pub needs_date : CollectionHandle → List Snapshot → Bool
  needs_date h ss =
      is_missing (before_baseline h.baseline_snapshot_id ss)
      && not (is_empty h.baseline_snapshot_id)

  pub record Discovered (h : CollectionHandle) (ss : List Snapshot) (s : Snapshot) : Type 0 where
    pub front : List Snapshot
    pub back : List Snapshot
    pub split : ss ≡ front ++ s ∷ back
    pub newer : All (NotBaseline h.baseline_snapshot_id) (front ++ s ∷ [])
    pub made : is_candidate (needs_date h ss) h.started_at s ≡ true
    pub first : All (λ x. is_candidate (needs_date h ss) h.started_at x ≡ false) front

  assemble :
      (h : CollectionHandle) (ss front back : List Snapshot) (s : Snapshot) (dated : Bool)
      → needs_date h ss ≡ dated
      → ss ≡ front ++ s ∷ back
      → All (NotBaseline h.baseline_snapshot_id) (front ++ s ∷ [])
      → is_candidate dated h.started_at s ≡ true
      → All (λ x. is_candidate dated h.started_at x ≡ false) front
      → Discovered h ss s
  assemble h ss front back s dated q split newer made first = record {
    front = front;
    back = back;
    split = split;
    newer = newer;
    made = subst (λ d. is_candidate d h.started_at s ≡ true) (sym q) made;
    first = subst (λ d. All (λ x. is_candidate d h.started_at x ≡ false) front) (sym q) first;
  }

  -- The snapshot that is discovered was triggered by a collection and stands in front of every
  -- occurrence of the baseline; if the baseline is named but no longer listed, its creation date
  -- can be read and is not before the start of the operation; and no snapshot further in front
  -- qualifies.
  pub discover_sound :
      (h : CollectionHandle) (ss : List Snapshot) (s : Snapshot)
      → discover parse h ss ≡ some s
      → Discovered h ss s
  unfolding discover
  discover_sound h ss s found = elim (Option-cases (before_baseline b ss)) [
    | inl e ↦
        let (front, back, split, made, first) =
          first_collected-some (not (is_empty b)) h.started_at ss s (rw (e, discover) at found) in
        assemble h ss front back s (not (is_empty b)) (rw e) split
          (All-prefix (NotBaseline b) s front back
            (subst (All (NotBaseline b)) split (before_baseline-none b ss e)))
          made first
    | inr (newer, e) ↦
        let (base, rest, whole, _, fresh) = before_baseline-some b ss newer e in
        let (front, back, split, made, first) =
          first_collected-some false h.started_at newer s (rw (e, discover) at found) in
        assemble h ss front (back ++ base ∷ rest) s false (rw e)
          (whole ∙ ap (λ l. l ++ base ∷ rest) split ∙ append_assoc front (s ∷ back) (base ∷ rest))
          (All-prefix (NotBaseline b) s front back (subst (All (NotBaseline b)) split fresh)) made
          first
  ]
    where
      b : Text
      b = h.baseline_snapshot_id

  -- If nothing is discovered, then either the baseline is not listed, and no snapshot of the list is
  -- triggered by a collection and, where the baseline is named, created since the start; or it is,
  -- and no snapshot in front of its first occurrence is triggered by a collection.
  pub discover_complete :
      (h : CollectionHandle) (ss : List Snapshot)
      → discover parse h ss ≡ none
      → (All (NotBaseline h.baseline_snapshot_id) ss
          × All
              (λ x. is_candidate (not (is_empty h.baseline_snapshot_id)) h.started_at x ≡ false)
              ss)
        ⊎ ((newer : List Snapshot) × SplitAt h.baseline_snapshot_id ss newer
            × All (λ x. is_collection x ≡ false) newer)
  unfolding discover
  discover_complete h ss found = elim (Option-cases (before_baseline b ss)) [
    | inl e ↦ inl (
      before_baseline-none b ss e,
      first_collected-none (not (is_empty b)) h.started_at ss (rw (e, discover) at found),
    )
    | inr (newer, e) ↦ inr (
      newer,
      before_baseline-some b ss newer e,
      first_collected-none false h.started_at newer (rw (e, discover) at found),
    )
  ]
    where
      b : Text
      b = h.baseline_snapshot_id

-- A snapshot that `find` returns has the ID, and none in front of it in the list has.
pub find-some :
    (id : Text) (ss : List Snapshot) (s : Snapshot)
    → find id ss ≡ some s
    → (front back : List Snapshot) × (ss ≡ front ++ s ∷ back)
      × (s.id ≡ id)
      × All (λ x. text_eq x.id id ≡ false) front
unfolding find
find-some id [] s h = cc
find-some id (x ∷ ss) s h = elim (Bool-cases (text_eq x.id id)) [
  | inl e ↦
      subst
        (λ y.
          (front back : List Snapshot) × (x ∷ ss ≡ front ++ y ∷ back)
          × (y.id ≡ id)
          × All (λ x. text_eq x.id id ≡ false) front)
        (some_inj (rw e at h)) ([], ss, refl, eq-text_eq x.id id e, tt)
  | inr e ↦
      let (front, back, split, same, first) = find-some id ss s (rw e at h) in
      (x ∷ front, back, ap (λ (l : List Snapshot). x ∷ l) split, same, (e, first))
]
