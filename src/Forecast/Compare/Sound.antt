-- ===== src/Forecast/Compare/Sound.antt =====
-- The plan of a comparison: it has a history and a step at least, so that its windows are complete.
use native.Mathlib.Nat.{div-add-mod}
use keda_replica_sense.Prelude.{
  ℕ, zero, suc, ◌+◌, ◌*◌, ◌/◌, ◌%◌, ◌≤◌, ℤ, pos, negsuc, pos_part, leb_ℤ, eqb_ℤ, ◌+ℤ◌, ◌*ℤ◌, ◌≤ℤ◌,
  quot, rem, wrap64, max_int64, String, str_eq, List, [], ◌∷◌, length, Bool, true, false, not, ◌||◌,
  Option, none, some, ok, guard, Float64, ◌≡◌, refl, sym, ap, ◌∙◌, arith, Every, ok_injective,
  err-ne-ok, >>=-eq-ok, if_both, subst,
}
use keda_replica_sense.Dataset.{Sample}
use keda_replica_sense.Forecaster.Service.{Model, Request}
use keda_replica_sense.Forecast.Compare.{
  ComparisonOptions, bad_contract, index_panic, max_int, fixed_history, two_seasons,
  valid_comparison, select_points, needed_history,
}
use keda_replica_sense.Forecast.Compare.Score.{Plan, prepare}
use keda_replica_sense.Forecast.Compare.Complete.{IsComplete, AreApart, windows-AreComplete}

first_five :
    (a b c d e g h i j k l : Bool)
    → not (a || b || c || d || e || g || h || i || j || k || l) ≡ true
    → (a ≡ false) × (b ≡ false) × (c ≡ false) × (d ≡ false) × (e ≡ false)
first_five true b c d e g h i j k l w = cc
first_five false true c d e g h i j k l w = cc
first_five false false true d e g h i j k l w = cc
first_five false false false true e g h i j k l w = cc
first_five false false false false true g h i j k l w = cc
first_five false false false false false g h i j k l w = (refl, refl, refl, refl, refl)

some_quotient : (q n m : ℕ) → n * q + 0 ≡ m → 1 ≤ m → 1 ≤ q
some_quotient zero n m e some_m = omega (arith, e, some_m)
some_quotient (suc q) n m e some_m = omega arith

quot-positive :
    (z : ℤ) (n : ℕ)
    → leb_ℤ z (pos 0) ≡ false
    → not (eqb_ℤ (rem z n) (pos 0)) ≡ false
    → (q : ℕ) × (quot z n ≡ pos q) × (1 ≤ q)
unfolding quot rem
quot-positive (pos m) n h e =
    let whole : m % n ≡ 0 = ground arith in
    (
      m / n,
      refl,
      some_quotient (m / n) n m (ap (λ r. n * (m / n) + r) (sym whole) ∙ div-add-mod m n)
          (ground arith),
    )
quot-positive (negsuc m) n h e = absurd (ground arith)

le-max_int_left : (a b c : ℤ) → c ≤ℤ a → c ≤ℤ max_int a b
le-max_int_left a b c h = ground arith

guard-eq-ok : {E : Type 0} (b : Bool) (e : E) {u : Unit {0}} → guard b e ≡ ok u → b ≡ true
guard-eq-ok true e h = refl
guard-eq-ok false e h = absurd (err-ne-ok h)

some_part : (z : ℤ) (q : ℕ) → z ≡ pos q → 1 ≤ q → 1 ≤ pos_part z
some_part z q e h = rw e h

some_above :
    (season history : ℤ) (q : ℕ) → season ≡ pos q → 1 ≤ q → season ≤ℤ history → 1 ≤ pos_part history
some_above season history q e some_q h =
    let above : pos q ≤ℤ history = subst (λ z. z ≤ℤ history) e h in omega (arith, above, some_q)

le-fixed_history : (history : ℤ) (lookback : Option ℤ) → history ≤ℤ fixed_history history lookback
le-fixed_history history none = omega arith
le-fixed_history history (some n) = le-max_int_left history n history (omega arith)

le-two_seasons :
    (engine : String) (season lower history : ℤ)
    → lower ≤ℤ history
    → lower ≤ℤ two_seasons engine season history
le-two_seasons engine season lower history h =
    if_both (λ z. lower ≤ℤ z) (str_eq engine "holt-winters")
      (λ _. le-max_int_left history (wrap64 (pos 2 *ℤ season)) lower h) (λ _. h)

module _ {W : Type 0} ⦃f : Float64 W⦄ where
  le-needed_history :
      (season history : ℤ) (models : List (String × Option (Model W))) (found : ℤ)
      → needed_history season history models ≡ ok found
      → history ≤ℤ found
  unfolding needed_history
  le-needed_history season history [] found h =
      subst (λ z. history ≤ℤ z) (ok_injective h) (omega arith)
  le-needed_history season history ((name, none) ∷ ms) found h = absurd (err-ne-ok h)
  le-needed_history season history ((name, some m) ∷ ms) found h =
      let fixed = fixed_history history m.inference_lookback in
      let rest = le-needed_history season (two_seasons m.engine season fixed) ms found h in
      let kept = le-fixed_history history m.inference_lookback in
      let grown = le-two_seasons m.engine season history fixed kept in omega (arith, rest, grown)

  -- A plan whose windows are complete and apart.
  abbrev pub IsSound : Request W → ComparisonOptions W → Plan W → Type 0
  IsSound r o plan =
      (1 ≤ plan.history)
      × (1 ≤ plan.steps)
      × Every (IsComplete r.sampling_interval o.after plan.history plan.steps plan.samples)
          plan.indexes
      × AreApart r.sampling_interval o.after plan.history plan.steps plan.samples (pos 0)
          plan.indexes

  pub prepare-IsSound :
      (models : List (String × Option (Model W))) (observed : List (Sample W)) (r : Request W)
      (o : ComparisonOptions W) (plan : Plan W)
      → prepare models observed r o ≡ ok plan
      → IsSound r o plan
  unfolding prepare valid_comparison
  prepare-IsSound models observed r o plan h =
      let interval = r.sampling_interval in
      let (_, valid, h1) =
        >>=-eq-ok (guard (valid_comparison (length models) r o) bad_contract) _ h in
      let (samples, selected, h2) = >>=-eq-ok (select_points interval [] none observed) _ h1 in
      let steps = quot r.horizon (pos_part interval) in
      let season = quot r.seasonal_period (pos_part interval) in
      let (history, needed, h3) = >>=-eq-ok (needed_history season season models) _ h2 in
      let (_, fits, h4) = >>=-eq-ok (guard (leb_ℤ (history +ℤ steps) max_int64) index_panic) _ h3 in
      let (_, far, whole, seasonal, regular) =
        first_five _ _ _ _ _ _ _ _ _ _ _ (guard-eq-ok _ bad_contract valid) in
      let (q, quotient, some_step) = quot-positive r.horizon (pos_part interval) far whole in
      let (q', quotient', some_season) =
        quot-positive r.seasonal_period (pos_part interval) seasonal regular in
      let above = le-needed_history season season models history needed in
      let steps_part = some_part steps q quotient some_step in
      let history_part = some_above season history q' quotient' some_season above in
      let (complete, apart) =
        windows-AreComplete interval o.after (pos_part history) (pos_part steps) samples
          history_part steps_part in
      subst (IsSound r o) (ok_injective h4) (history_part, steps_part, complete, apart)
