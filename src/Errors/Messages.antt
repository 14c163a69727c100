-- ===== src/Errors/Messages.antt =====
-- errors.go: the three fixed sentences of a 403, which Go matches by regular expressions that are
-- anchored at both ends and leave no choice of where a group ends.
use forward_go_sdk.Prelude.{
  ℕ, ◌==◌, Bool, true, false, ◌&&◌, ◌||◌, not, Option, none, some, [], ◌∷◌, leb, if◌then◌else◌,
}
use forward_go_sdk.Text.{Text, codes, text_eq, is_empty, fold_code}
use forward_go_sdk.Errors.Words.{after_prefix}

abbrev pub is_upper : ℕ → Bool
is_upper c = leb b'A' c && leb c b'Z'

abbrev pub is_letter : ℕ → Bool
is_letter c = is_upper c || (leb b'a' c && leb c b'z')

-- [A-Z0-9_]
abbrev pub is_name_code : ℕ → Bool
is_name_code c = is_upper c || (leb b'0' c && leb c b'9') || c == b'_'

-- The longest front of such characters, and the rest.
unfoldable pub name_span : Text → Text × Text
name_span [] = ([], [])
name_span (c ∷ s) =
    let (name, rest) = name_span s in if is_name_code c then (c ∷ name, rest) else ([], c ∷ s)

-- [A-Z][A-Z0-9_]* as a whole text
unfoldable pub is_name : Text → Bool
unfolding name_span is_empty
is_name [] = false
is_name (c ∷ s) = is_upper c && is_empty (name_span s).1

-- [A-Za-z]+Operation\. and what is behind it
unfoldable pub letters_span : Text → Text × Text
letters_span [] = ([], [])
letters_span (c ∷ s) =
    let (letters, rest) = letters_span s in if is_letter c then (c ∷ letters, rest) else ([], c ∷ s)

-- One character or more, and then the word.
unfoldable pub ends_in_word : Text → Text → Bool
unfolding text_eq
ends_in_word word [] = false
ends_in_word word (c ∷ s) = text_eq s word || ends_in_word word s

abbrev behind_dot : Text → Option Text
behind_dot [] = none
behind_dot (c ∷ s) = if c == b'.' then some s else none

-- The name of an operation, with or without its class.
unfoldable pub is_operation : Text → Bool
unfolding is_name letters_span ends_in_word
is_operation s = if is_name s then true else elim (behind_dot (letters_span s).1) [
  | none ↦ false
  | some name ↦ ends_in_word (codes "Operation") (letters_span s).0 && is_name name
]

abbrev operation_behind : Text → Option Text
operation_behind s = elim (after_prefix (codes " ") s) [
  | none ↦ none
  | some operation ↦ if is_operation operation then some operation else none
]

-- What stands behind one of the leading words: an optional colon, a space and an operation.
unfoldable pub denied_operation : Text → Text → Option Text
unfolding after_prefix is_operation
denied_operation leading message = elim (after_prefix leading message) [
  | none ↦ none
  | some s ↦ elim (after_prefix (codes ":") s) [
    | none ↦ operation_behind s
    | some t ↦ operation_behind t
  ]
]

-- featureGateMessage: the property, whether it is on, and the scope.
unfoldable pub gate_scope_of : Text → Option Text
unfolding text_eq
gate_scope_of s =
    if text_eq s (codes "organization") || text_eq s (codes "deployment") then some s else none

unfoldable pub feature_gate : Text → Option (Text × Bool × Text)
unfolding name_span is_name gate_scope_of after_prefix
feature_gate message =
    let (name, rest) = name_span message in
    if not (is_name name) then none else elim (after_prefix (codes " is on for your ") rest) [
      | some s ↦ elim (gate_scope_of s) [ none ↦ none | some scope ↦ some (name, true, scope) ]
      | none ↦ elim (after_prefix (codes " is off for your ") rest) [
        | none ↦ none
        | some s ↦ elim (gate_scope_of s) [ none ↦ none | some scope ↦ some (name, false, scope) ]
      ]
    ]

abbrev global_default_words : Text
global_default_words = codes "Permission denied. Global default value cannot be changed for "

-- [A-Za-z0-9_] without regard to case
abbrev is_folded_name_code : ℕ → Bool
is_folded_name_code c = is_name_code (fold_code c)

unfoldable pub all_folded : Text → Bool
unfolding fold_code
all_folded [] = true
all_folded (c ∷ s) = is_folded_name_code c && all_folded s

unfoldable pub after_folded : Text → Text → Option Text
unfolding fold_code
after_folded [] s = some s
after_folded (p ∷ ps) [] = none
after_folded (p ∷ ps) (c ∷ s) = if fold_code p == fold_code c then after_folded ps s else none

-- globalDefaultMessage: the property.
unfoldable pub global_default_property : Text → Option Text
unfolding after_folded all_folded fold_code
global_default_property message = elim (after_folded global_default_words message) [
  | none ↦ none
  | some [] ↦ none
  | some (c ∷ s) ↦ if is_upper (fold_code c) && all_folded s then some (c ∷ s) else none
]
