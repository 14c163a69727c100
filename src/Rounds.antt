-- ===== src/Rounds.antt =====
-- Loops of operations.go and nqe_paged.go: rounds that end the call, leave the loop, or go on.
use mathlib.Core.Path.{subst}
use forward_go_sdk.Text.{Text}
use forward_go_sdk.Prelude.{ℕ, zero, suc, ◌+◌, ◌≤◌, ◌<◌, ◌≡◌, ◌≢◌, refl, ap, arith}

-- A request's answer, or the error that it returned.
pub data Reply (A : Type 0) : Type 0 where
  answer : A → Reply A
  refusal : Text → Reply A

pub data Step (L R : Type 0) : Type 0 where
  finish : R → Step L R
  leave : L → Step L R
  go : L → Step L R

-- How a loop ends within its fuel.
pub data Ended (L R : Type 0) : Type 0 where
  out_of_fuel : Ended L R
  finished : R → Ended L R
  left : L → Ended L R

module _ {L R : Type 0} where
  -- What follows a step, given what follows a round that goes on.
  abbrev pub continue : (L → Ended L R) → Step L R → Ended L R
  continue more (finish r) = finished r
  continue more (leave l) = left l
  continue more (go l) = more l

  abbrev pub Holds : (L → Type 0) → (R → Type 0) → Ended L R → Type 0
  Holds P Q out_of_fuel = Unit {0}
  Holds P Q (finished r) = Q r
  Holds P Q (left l) = P l

  abbrev pub Keeps : (L → Type 0) → (L → Type 0) → (R → Type 0) → Step L R → Type 0
  Keeps I P Q (finish r) = Q r
  Keeps I P Q (leave l) = P l
  Keeps I P Q (go l) = I l

  abbrev pub IsGo : Step L R → Type 0
  IsGo (finish r) = ⊥
  IsGo (leave l) = ⊥
  IsGo (go l) = Unit {0}

module _ {L R : Type 0} (round : ℕ → L → Step L R) where
  -- Round after round, numbered from `i`.
  unfoldable pub repeat : ℕ → ℕ → L → Ended L R
  repeat zero i l = out_of_fuel
  repeat (suc fuel) i l = continue (repeat fuel (i + 1)) (round i l)

  -- An invariant of the rounds holds to the end of the loop.
  pub repeat_inv :
      (I : ℕ → L → Type 0) (P : L → Type 0) (Q : R → Type 0)
      → ((i : ℕ) (l : L) → I i l → Keeps (I (i + 1)) P Q (round i l))
      → (fuel i : ℕ) (l : L) → I i l
      → Holds P Q (repeat fuel i l)
  unfolding repeat
  repeat_inv I P Q keep zero i l h = tt
  repeat_inv I P Q keep (suc fuel) i l h =
      next (round i l) (keep i l h) (repeat_inv I P Q keep fuel (i + 1))
    where
      next :
          (st : Step L R)
          → Keeps (I (i + 1)) P Q st
          → ((l' : L) → I (i + 1) l' → Holds P Q (repeat fuel (i + 1) l'))
          → Holds P Q (continue (repeat fuel (i + 1)) st)
      next (finish r) k ih = k
      next (leave l') k ih = k
      next (go l') k ih = ih l' k

  -- A loop that ends the call does so in some round `i + k`: fuel for the rounds before it runs out,
  -- one more gives the result, and what an invariant makes true of the last round holds.
  pub repeat_last :
      (I : ℕ → L → Type 0) (P : L → Type 0) (Q : ℕ → R → Type 0)
      → ((i : ℕ) (l : L) → I i l → Keeps (I (i + 1)) P (Q i) (round i l))
      → (fuel i : ℕ) (l : L) (r : R) → I i l
      → repeat fuel i l ≡ finished r
      → (k : ℕ) × (repeat k i l ≡ out_of_fuel) × (repeat (suc k) i l ≡ finished r) × Q (i + k) r
  unfolding repeat
  repeat_last I P Q keep zero i l r h e = cc
  repeat_last I P Q keep (suc fuel) i l r h e =
      next (round i l) refl (keep i l h) (repeat_last I P Q keep fuel (i + 1)) e
    where
      plus_zero : (j : ℕ) → j ≡ j + 0
      plus_zero j = omega arith

      plus_one : (k : ℕ) → i + 1 + k ≡ i + suc k
      plus_one k = omega arith

      result_or : R → Ended L R → R
      result_or r' out_of_fuel = r'
      result_or r' (finished r'') = r''
      result_or r' (left l') = r'

      next :
          (st : Step L R)
          → round i l ≡ st
          → Keeps (I (i + 1)) P (Q i) st
          → ((l' : L) (r' : R)
              → I (i + 1) l'
              → repeat fuel (i + 1) l' ≡ finished r'
              → (k : ℕ) × (repeat k (i + 1) l' ≡ out_of_fuel)
                × (repeat (suc k) (i + 1) l' ≡ finished r')
                × Q (i + 1 + k) r')
          → continue (repeat fuel (i + 1)) st ≡ finished r
          → (k : ℕ) × (repeat k i l ≡ out_of_fuel) × (repeat (suc k) i l ≡ finished r) × Q (i + k) r
      next (finish r') p q ih e =
          (0, refl, rw p e, subst (λ j. Q j r) (plus_zero i) (subst (Q i) (ap (result_or r) e) q))
      next (leave l') p q ih e = cc
      next (go l') p q ih e =
          let (k, before, here, known) = ih l' r q e in
          (suc k, rw p before, rw p here, subst (λ j. Q j r) (plus_one k) known)

  -- If round `n` never goes on, fuel beyond it is enough.
  pub repeat_stops :
      (n : ℕ)
      → ((l : L) → ¬ IsGo (round n l))
      → (k fuel i : ℕ) (l : L) → i + k ≡ n
      → k < fuel
      → repeat fuel i l ≢ out_of_fuel
  unfolding repeat
  repeat_stops n stops k zero i l e h = absurd (omega arith)
  repeat_stops n stops zero (suc fuel) i l e h =
      next (round i l) (subst (λ j. ¬ IsGo (round j l)) (omega arith) (stops l))
    where
      next : (st : Step L R) → ¬ IsGo st → continue (repeat fuel (i + 1)) st ≢ out_of_fuel
      next (finish r) k = λ e. cc
      next (leave l') k = λ e. cc
      next (go l') k = absurd (k tt)
  repeat_stops n stops (suc k) (suc fuel) i l e h =
      next (round i l) (λ l'. repeat_stops n stops k fuel (i + 1) l' (omega arith) (omega arith))
    where
      next :
          (st : Step L R)
          → ((l' : L) → repeat fuel (i + 1) l' ≢ out_of_fuel)
          → continue (repeat fuel (i + 1)) st ≢ out_of_fuel
      next (finish r) ih = λ e. cc
      next (leave l') ih = λ e. cc
      next (go l') ih = ih l'

  -- More fuel does not change how a loop ends.
  pub repeat_more :
      (f g i : ℕ) (l : L) → f ≤ g → repeat f i l ≢ out_of_fuel → repeat g i l ≡ repeat f i l
  unfolding repeat
  repeat_more zero g i l h p = absurd (p refl)
  repeat_more (suc f) zero i l h p = absurd (omega arith)
  repeat_more (suc f) (suc g) i l h p =
      next (round i l) (λ l'. repeat_more f g (i + 1) l' (omega arith)) p
    where
      next :
          (st : Step L R)
          → ((l' : L)
              → repeat f (i + 1) l' ≢ out_of_fuel
              → repeat g (i + 1) l' ≡ repeat f (i + 1) l')
          → continue (repeat f (i + 1)) st ≢ out_of_fuel
          → continue (repeat g (i + 1)) st ≡ continue (repeat f (i + 1)) st
      next (finish r) ih q = refl
      next (leave l') ih q = refl
      next (go l') ih q = ih l' q

  -- A measure that every round that goes on makes smaller bounds the fuel.
  pub repeat_bounded :
      (I : L → Type 0) (size : L → ℕ)
      → ((i : ℕ) (l : L)
          → I l
          → Keeps (λ l'. I l' × (size l' < size l)) (λ _. Unit {0}) (λ _. Unit {0}) (round i l))
      → (fuel i : ℕ) (l : L) → I l
      → size l < fuel
      → repeat fuel i l ≢ out_of_fuel
  unfolding repeat
  repeat_bounded I size less zero i l h m = absurd (omega arith)
  repeat_bounded I size less (suc fuel) i l h m =
      next (round i l) (less i l h)
        (λ l' k s. repeat_bounded I size less fuel (i + 1) l' k (omega (arith, m, s)))
    where
      next :
          (st : Step L R)
          → Keeps (λ l'. I l' × (size l' < size l)) (λ _. Unit {0}) (λ _. Unit {0}) st
          → ((l' : L) → I l' → size l' < size l → repeat fuel (i + 1) l' ≢ out_of_fuel)
          → continue (repeat fuel (i + 1)) st ≢ out_of_fuel
      next (finish r) k ih = λ e. cc
      next (leave l') k ih = λ e. cc
      next (go l') k ih = ih l' k.0 k.1
