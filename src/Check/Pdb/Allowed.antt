-- ===== src/Check/Pdb/Allowed.antt =====
-- internal/check/pdb.go: how many disruptions allowedDisruptions grants.
use kubectl_safe_rollout.Prelude.{
  ℕ, ◌+◌, ◌-◌, ◌*◌, ◌≤◌, ◌<◌, String, true, ◌≡◌, Option, none, some, arith, Fallible, ok, err,
}
use kubectl_safe_rollout.Prelude.Int.{ℤ, pos, ◌≤ℤ◌, ◌-ℤ◌, i32, i32_id, i32-IsInt32, IsInt32}
use Prim.Native.Nat.{◌/◌}
use kubectl_safe_rollout.Api.{Apimachinery, IntOrString, int_value, str_value}
use kubectl_safe_rollout.Check.Pdb.{allowed_disruptions, at_least_zero}

-- The documented behaviour of GetScaledValueFromIntOrPercent, rounding up: an integer stands for
-- itself, and a percentage for that share of the total, rounded up. `percent` reads "p%" as p.
pub record ScalesUp (lib : Apimachinery) (percent : String → Option ℕ) : Type 0 where
  pub scales_int : (n total : ℤ) → lib.scaled_value (int_value n) total true ≡ ok n
  pub scales_percent :
      (s : String) (p total : ℕ)
      → percent s ≡ some p
      → lib.scaled_value (str_value s) (pos total) true ≡ ok (pos ((p * total + 99) / 100))

-- Whatever the budget, the result is an int32 that is not negative.
at_least_zero_bounds : (z : ℤ) → IsInt32 z → (pos 0 ≤ℤ at_least_zero z) × IsInt32 (at_least_zero z)
at_least_zero_bounds z h = ground arith

module _ {a : ℤ} {mode : String} (field : String) (g : ℤ → ℤ)
    (g_range : (v : ℤ) → IsInt32 (g v)) where
  granted_bounds :
      (x : Fallible ℤ)
      → ◌≡◌ {A = Fallible (ℤ × String)}
          (elim x [ err e ↦ err e | ok v ↦ ok (at_least_zero (g v), field) ])
          (ok (a, mode))
      → (pos 0 ≤ℤ a) × IsInt32 a
  granted_bounds (err e) h = cc
  granted_bounds (ok v) h = ground (arith, at_least_zero_bounds (g v) (g_range v))

-- Whatever the budget and the library answer, the number of disruptions allowed is an int32 that is
-- not negative.
pub allowed_disruptions_bounds :
    (lib : Apimachinery) (min max : Option IntOrString) (r : ℤ) {a : ℤ} {mode : String}
    → allowed_disruptions lib min max r ≡ ok (a, mode)
    → (pos 0 ≤ℤ a) × IsInt32 a
unfolding allowed_disruptions
allowed_disruptions_bounds lib (some m) max r h =
    granted_bounds "minAvailable" (λ v. i32 (r -ℤ i32 v)) (λ v. i32-IsInt32 (r -ℤ i32 v))
      (lib.scaled_value m r true) h
allowed_disruptions_bounds lib none (some m) r h =
    granted_bounds "maxUnavailable" i32 i32-IsInt32 (lib.scaled_value m r true) h
allowed_disruptions_bounds lib none none r h = cc

difference-IsInt32 : (r v : ℕ) → r < 2147483648 → v < 2147483648 → IsInt32 (pos r -ℤ pos v)
unfolding ◌-ℤ◌
difference-IsInt32 r v hr hv = ground arith

difference : (r v : ℕ) → at_least_zero (pos r -ℤ pos v) ≡ pos (r - v)
unfolding ◌-ℤ◌
difference r v = ground arith

-- On numbers in range the int32 arithmetic is subtraction that stops at zero.
headroom_lem :
    (r v : ℕ)
    → r < 2147483648
    → v < 2147483648
    → at_least_zero (i32 (pos r -ℤ i32 (pos v))) ≡ pos (r - v)
headroom_lem r v hr hv =
    rw (i32_id (pos v) (omega arith), i32_id (pos r -ℤ pos v) (difference-IsInt32 r v hr hv))
      (difference r v)

kept :
    (n : ℕ)
    → ◌≡◌ {A = Fallible (ℤ × String)}
        (ok (at_least_zero (pos n), "maxUnavailable"))
        (ok (pos n, "maxUnavailable"))
kept n = ground arith

module _ (lib : Apimachinery) (percent : String → Option ℕ) (up : ScalesUp lib percent) where
  -- An integer minAvailable of m, over r replicas, allows r - m disruptions, and none below zero.
  pub min_int_allows :
      (m r : ℕ) (max : Option IntOrString)
      → m < 2147483648
      → r < 2147483648
      → allowed_disruptions lib (some (int_value (pos m))) max (pos r)
        ≡ ok (pos (r - m), "minAvailable")
  unfolding allowed_disruptions
  min_int_allows m r max hm hr =
      rw (up.scales_int (pos m) (pos r), allowed_disruptions, headroom_lem r m hr hm)

  -- A minAvailable of p percent allows the largest number of disruptions of r replicas after which
  -- at least p percent of them remain.
  pub min_percent_allows :
      (s : String) (p r : ℕ) (max : Option IntOrString)
      → percent s ≡ some p
      → p ≤ 100
      → r < 2147483648
      → (a : ℕ) × (allowed_disruptions lib (some (str_value s)) max (pos r)
          ≡ ok (pos a, "minAvailable"))
        × (a ≤ r)
        × (p * r ≤ 100 * (r - a))
        × (100 * (r - a) < p * r + 100)
  unfolding allowed_disruptions
  min_percent_allows s p r max e hp hr =
      let le : p * r ≤ 100 * r = grind arith in
      let v : ℕ = (p * r + 99) / 100 in
      (
        r - v,
        rw (up.scales_percent s p r e, allowed_disruptions, headroom_lem r v hr (omega arith)),
        omega arith,
        omega arith,
        omega arith,
      )

  -- A maxUnavailable of p percent allows that share of r replicas, rounded up.
  pub max_percent_allows :
      (s : String) (p r : ℕ)
      → percent s ≡ some p
      → p * r < 200000000000
      → (a : ℕ) × (allowed_disruptions lib none (some (str_value s)) (pos r)
          ≡ ok (pos a, "maxUnavailable"))
        × (p * r ≤ 100 * a)
        × (100 * a < p * r + 100)
  unfolding allowed_disruptions
  max_percent_allows s p r e h =
      let v : ℕ = (p * r + 99) / 100 in
      (
        v,
        rw (up.scales_percent s p r e, allowed_disruptions, i32_id (pos v) (omega arith)) (kept v),
        omega arith,
        omega arith,
      )
