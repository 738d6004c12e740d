-- ===== src/Diagnose/Watch/Windowing.antt =====
-- internal/diagnose/watch.go: what a tick does to the stability window, and that it returns no success.
use kubectl_safe_rollout.Prelude.{
  ℕ, zero, suc, ◌+◌, ◌≤◌, Bool, true, false, ◌≡◌, refl, sym, ap, ◌∙◌, arith, none, some, ltb, ◌&&◌,
  if◌then◌else◌, is_some, Bool-cases, Option-cases, ◌⊎◌, inl, inr, Fallible, ok, err,
}
use mathlib.Core.Path.{subst}
use kubectl_safe_rollout.Prelude.Int.{ℤ, pos, negsuc}
use kubectl_safe_rollout.Diagnose.Restarts.{increased}
use kubectl_safe_rollout.Diagnose.Tick.{WatchTarget, Outcome, Tick}
use kubectl_safe_rollout.Diagnose.Watch.{
  override, Windows, windows, Loop, Handled, finished, relist, going_on, wait_undetermined,
  wait_paused, settle, drop_restarted, keep_stability, stop_grace, stop_paused_settle,
  stop_stability,
}
use kubectl_safe_rollout.Diagnose.Watch.Kinds.{all_undetermined, is_settle_window_only}

pub windows_ordered : (wt : WatchTarget) → (windows wt).clean ≤ (windows wt).restarted
unfolding windows
windows_ordered wt = by_override wt.stability_window
  where
    by_override : (d : ℤ) → override d 5000000000 ≤ override d 30000000000
    by_override (pos zero) = omega arith
    by_override (pos (suc n)) = omega arith
    by_override (negsuc n) = omega arith

-- The first switch changes neither the pods nor the stability window.
abbrev pub SameWindow : Loop → Loop → Type 0
SameWindow s s' =
    (s'.pods ≡ s.pods)
    × (s'.stability ≡ s.stability)
    × (s'.stability_restart_counts ≡ s.stability_restart_counts)

-- What holds of the result that a tick returns, or of the state that it goes on with.
abbrev pub Each : (Fallible Outcome → Type 0) → (Loop → Type 0) → Handled → Type 0
Each F L (finished r) = F r
Each F L (relist restarts) = ⊥
Each F L (going_on s) = L s

abbrev pub NotSuccess : Fallible Outcome → Type 0
NotSuccess (ok o) = o.succeeded ≡ false
NotSuccess (err e) = Unit

wait_undetermined-Each :
    (w : Windows) (now : ℕ) (s : Loop)
    → s.pending_undetermined.succeeded ≡ false
    → Each NotSuccess (SameWindow s) (wait_undetermined w now s)
unfolding wait_undetermined
wait_undetermined-Each w now s h = elim (Bool-cases s.grace_ticker) [
  | inr e ↦ rw e (refl, refl, refl)
  | inl e ↦ elim (Bool-cases (ltb s.grace_deadline now)) [
    | inl l ↦ rw (e, l) h
    | inr l ↦ rw (e, l) (refl, refl, refl)
  ]
]

wait_paused-Each :
    (w : Windows) (now : ℕ) (s : Loop)
    → s.pending_paused_only.succeeded ≡ false
    → Each NotSuccess (SameWindow s) (wait_paused w now s)
unfolding wait_paused
wait_paused-Each w now s h = elim (Bool-cases s.paused_ticker) [
  | inr e ↦ rw e (refl, refl, refl)
  | inl e ↦ elim (Bool-cases (ltb s.paused_deadline now)) [
    | inl l ↦ rw (e, l) h
    | inr l ↦ rw (e, l) (refl, refl, refl)
  ]
]

pub settle-Each :
    (w : Windows) (now : ℕ) (t : Tick) (s : Loop)
    → t.outcome.succeeded ≡ false
    → Each NotSuccess (SameWindow s) (settle w now t s)
unfolding settle
settle-Each w now t s h = elim (Bool-cases (t.failure_found && all_undetermined t.outcome)) [
  | inl e ↦ rw e (
      wait_undetermined-Each w now
        (record (stop_paused_settle s) { pending_undetermined = t.outcome }) h)
  | inr e ↦ elim (Bool-cases (t.failure_found && is_settle_window_only t.outcome)) [
    | inl f ↦
        rw (e, f)
          (wait_paused-Each w now (record (stop_grace s) { pending_paused_only = t.outcome }) h)
    | inr f ↦ elim (Bool-cases t.failure_found) [
      | inl g ↦ rw (e, f, g) h
      | inr g ↦ rw (e, f, g) (refl, refl, refl)
    ]
  ]
]

-- How the stability window stands after the end of a tick: closed; opened now, by a complete tick; or
-- kept, by a complete tick with no restart since it was opened.
abbrev pub Windowed : Windows → ℕ → Tick → Loop → Loop → Type 0
Windowed w now t s s' =
    (s'.stability ≡ none)
    ⊎ ((t.complete ≡ true)
          × ((window : ℕ) × (s'.stability ≡ some (now + window))
              × (w.clean ≤ w.restarted → w.clean ≤ window))
        ⊎ ((t.complete ≡ true)
            × (s'.stability ≡ s.stability)
            × (increased s.stability_restart_counts s.pods ≡ false)))

opens :
    (w : Windows) (now : ℕ) (t : Tick) (s : Loop)
    → t.complete ≡ true
    → s.stability ≡ none
    → (window : ℕ) × ((keep_stability w now t s).stability ≡ some (now + window))
      × (w.clean ≤ w.restarted → w.clean ≤ window)
unfolding keep_stability
opens w now t s h e = (
  if s.restarts.increase_observed then w.restarted else w.clean,
  rw (h, e) refl,
  elim (Bool-cases s.restarts.increase_observed) [
    | inl i ↦ rw i (λ le. le)
    | inr i ↦ rw i (λ le. omega arith)
  ],
)

stays_closed :
    (w : Windows) (now : ℕ) (t : Tick) (s : Loop)
    → t.complete ≡ false
    → (keep_stability w now t s).stability ≡ none
unfolding keep_stability
stays_closed w now t s c = elim (Option-cases s.stability) [
  | inl e ↦ rw (c, e) refl
  | inr (d, e) ↦ rw (c, e) refl
]

stays_open :
    (w : Windows) (now : ℕ) (t : Tick) (s : Loop) (d : ℕ)
    → t.complete ≡ true
    → s.stability ≡ some d
    → (keep_stability w now t s).stability ≡ some d
unfolding keep_stability
stays_open w now t s d c e = rw (c, e) refl

drop_cases :
    (s : Loop)
    → (drop_restarted s ≡ stop_stability s)
      ⊎ ((drop_restarted s ≡ s)
          × ((s.stability ≡ none) ⊎ (increased s.stability_restart_counts s.pods ≡ false)))
unfolding drop_restarted
drop_cases s = elim (Option-cases s.stability) [
  | inl e ↦
      inr
        (drops false (ap (λ o. is_some o && increased s.stability_restart_counts s.pods) e), inl e)
  | inr (d, e) ↦ elim (Bool-cases (increased s.stability_restart_counts s.pods)) [
    | inl i ↦
        inl (drops true (ap (λ o. is_some o && increased s.stability_restart_counts s.pods) e ∙ i))
    | inr i ↦ inr (
      drops false (ap (λ o. is_some o && increased s.stability_restart_counts s.pods) e ∙ i),
      inr i,
    )
  ]
]
  where
    drops :
        (b : Bool)
        → (is_some s.stability && increased s.stability_restart_counts s.pods) ≡ b
        → drop_restarted s ≡ (if b then stop_stability s else s)
    drops b e = ap (λ c. if c then stop_stability s else s) e

pub window_cases :
    (w : Windows) (now : ℕ) (t : Tick) (s : Loop)
    → Windowed w now t s (keep_stability w now t (drop_restarted s))
window_cases w now t s = elim (Bool-cases t.complete) [
  | inr c ↦ inl (stays_closed w now t (drop_restarted s) c)
  | inl c ↦ elim (drop_cases s) [
    | inl e ↦
        subst (λ u. Windowed w now t s (keep_stability w now t u)) (sym e)
          (inr (inl (c, opens w now t (stop_stability s) c refl)))
    | inr (e, rest) ↦
        subst (λ u. Windowed w now t s (keep_stability w now t u)) (sym e) (not_dropped c rest)
  ]
]
  where
    not_dropped :
        t.complete ≡ true
        → (s.stability ≡ none) ⊎ (increased s.stability_restart_counts s.pods ≡ false)
        → Windowed w now t s (keep_stability w now t s)
    not_dropped c (inl e) = inr (inl (c, opens w now t s c e))
    not_dropped c (inr i) = elim (Option-cases s.stability) [
      | inl e ↦ inr (inl (c, opens w now t s c e))
      | inr (d, e) ↦ inr (inr (c, stays_open w now t s d c e ∙ sym e, i))
    ]
