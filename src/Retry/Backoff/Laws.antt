-- ===== src/Retry/Backoff/Laws.antt =====
-- `retryWait` against its closed form.
use Prim.Native.Nat.{min}
use native.Mathlib.Nat.{pow-suc, le_of_mul-le-mul_right, div-mul-le_self, mul-le-mul_right, mul-sub}
use forward_go_sdk.Prelude.{
  ℕ, zero, suc, ◌-◌, ◌+◌, ◌*◌, ◌/◌, ◌^◌, ◌≡◌, ◌≤◌, ◌<◌, refl, arith, ltb, ltb→lt, lt→ltb,
  Bool-cases, inl, inr, ap, ◌∙◌, ltb_false→le,
}
use forward_go_sdk.Prelude.Int.{ℤ, pos, negsuc, double, min_ℤ}
use forward_go_sdk.Retry.Policy.{jitter_one}
use forward_go_sdk.Retry.Backoff.{doubled, clamp_jitter, shorten, backoff_wait}

double_small : (d : ℕ) → d < 2 ^ 62 → double (pos d) ≡ pos (2 * d)
double_small d h = ground arith

double_large : (d : ℕ) → 2 ^ 62 ≤ d → d < 2 ^ 63 → double (pos d) ≡ negsuc (2 ^ 64 - 2 * d - 1)
double_large d h k = ground arith

pow_grows : (k : ℕ) → 1 ≤ 2 ^ k
pow_grows zero = omega arith
pow_grows (suc k) = rw pow-suc (omega (arith, pow_grows k))

min_stays : (d m p : ℕ) → m ≤ d → 1 ≤ p → min d m ≡ min (d * p) m
min_stays d m p h k = grind arith

min_step : (d m k : ℕ) → min (2 * d * 2 ^ k) m ≡ min (d * 2 ^ suc k) m
min_step d m k = rw pow-suc (omega arith)

capped :
    (k d m : ℕ)
    → m ≤ 2 ^ 62
    → (e : ℕ) × (doubled k (pos d) (pos m) ≡ pos e) × (min e m ≡ min (d * 2 ^ k) m)
unfolding doubled
capped zero d m h = (d, refl, omega arith)
capped (suc k) d m h = elim (Bool-cases (ltb d m)) [
  | inl p ↦
      let (e, q, r) = capped k (2 * d) m h in
      (e, rw p (rw (double_small d (omega (arith, ltb→lt d m p))) q), r ∙ min_step d m k)
  | inr p ↦ (d, rw p, min_stays d m (2 ^ suc k) (ltb_false→le d m p) (pow_grows (suc k)))
]

min_ℤ_pos : (a b : ℕ) → min_ℤ (pos a) (pos b) ≡ pos (min a b)
min_ℤ_pos a b = ground arith

-- With a cap of at most 2^62 ns (146 years) no doubling overflows, and the wait before jitter is
-- the delay doubled `k` times, capped.
pub doubled-eq_pow :
    (k d m : ℕ) → m ≤ 2 ^ 62 → min_ℤ (doubled k (pos d) (pos m)) (pos m) ≡ pos (min (d * 2 ^ k) m)
doubled-eq_pow k d m h = let (e, p, q) = capped k d m h in rw p (min_ℤ_pos e m ∙ ap pos q)

clamp_jitter-le : (j : ℤ) → clamp_jitter j ≤ jitter_one
unfolding clamp_jitter
clamp_jitter-le j = ground arith

-- What the jitter cuts off is at most its share of the wait.
cut-mul-le : (r j w o : ℕ) → r ≤ o → 0 < o → r * j * w / (o * o) * o ≤ j * w
cut-mul-le r j w o h p = le_of_mul-le-mul_right {k = o} (omega (arith, whole, share)) p
  where
    whole : r * j * w / (o * o) * (o * o) ≤ r * j * w
    whole = div-mul-le_self (r * j * w) (o * o)

    share : r * (j * w) ≤ o * (j * w)
    share = mul-le-mul_right (j * w) h

sub-mul_le : (w c o : ℕ) → w * o ≤ (w - c) * o + c * o
sub-mul_le w c o = omega (arith, mul-le-mul_right o p)
  where
    p : w ≤ w - c + c
    p = omega arith

shortened_range :
    (r j w o e : ℕ)
    → r ≤ o
    → j ≤ o
    → 0 < o
    → e ≡ w - r * j * w / (o * o)
    → (e ≤ w) × (w * (o - j) ≤ e * o)
shortened_range r j w o e h k p q = (
  omega arith,
  omega (
    arith,
    cut-mul-le r j w o h p,
    cut,
    ap (λ (t : ℕ). t * o) q,
    mul-sub w o j,
    sub-mul_le w (r * j * w / (o * o)) o,
  ),
)
  where
    cut : j * w ≤ o * w
    cut = mul-le-mul_right w k

-- With a longest wait of at most 2^62 ns and a draw below 1, the wait before attempt `k + 2` lies between the capped exponential backoff less
-- the jitter's share of it, and that backoff.
pub backoff_wait_range :
    (d m k draw : ℕ) (jitter : ℤ)
    → m ≤ 2 ^ 62
    → draw < jitter_one
    → let w = min (d * 2 ^ k) m in
      (e : ℕ) × (backoff_wait (pos d) (suc k) (pos m) jitter draw ≡ pos e)
      × (e ≤ w)
      × (w * (jitter_one - clamp_jitter jitter) ≤ e * jitter_one)
unfolding backoff_wait shorten
backoff_wait_range d m k draw jitter h r =
    let w = min (d * 2 ^ k) m in
    let j = clamp_jitter jitter in
    let rounds : suc k - 1 ≡ k = omega arith in
    let (small, large) =
      shortened_range draw j w jitter_one (w - draw * j * w / (jitter_one * jitter_one))
        (omega arith) (clamp_jitter-le jitter) (omega arith) refl in
    (
      w - draw * j * w / (jitter_one * jitter_one),
      rw (rounds, doubled-eq_pow k d m h),
      small,
      large,
    )

-- For a first delay of at least 2^62 ns and a longest wait above it, both an int64, the doubling
-- overflows and the second wait is below 0.
pub backoff_wait_overflow :
    (d m draw : ℕ) (jitter : ℤ)
    → 2 ^ 62 ≤ d
    → d < m
    → m < 2 ^ 63
    → (n : ℕ) × (backoff_wait (pos d) 2 (pos m) jitter draw ≡ negsuc n)
unfolding backoff_wait doubled shorten
backoff_wait_overflow d m draw jitter h k l =
    let n = 2 ^ 64 - 2 * d - 1 in
    let j = clamp_jitter jitter in
    (
      n - draw * j * (n + 1) / (jitter_one * jitter_one),
      rw (lt→ltb d m k) (rw (double_large d h (omega arith)) refl),
    )
