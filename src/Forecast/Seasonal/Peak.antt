-- ===== src/Forecast/Seasonal/Peak.antt =====
-- What the seasonal baseline predicts.
use keda_replica_sense.Prelude.{
  ℕ, zero, suc, ◌+◌, ◌<◌, ℤ, pos, negsuc, pos_part, ◌==◌, List, [], ◌∷◌, get_elem?, take, drop,
  length, length-take, length-drop, Every, ◌-◌, ◌≤◌, ◌%◌, true, false, ◌||◌, ok, ◌≡◌, ◌↔◌, refl,
  sym, ◌∙◌, ◌⊎◌, inl, inr, arith, Float64, IsOrdered, IsNumber, ◌≼◌, if_both, subst, ap,
}
use native.Mathlib.Nat.{mod-eq_of_lt, mod-lt, mod-le}
use keda_replica_sense.Dataset.{Among}
use keda_replica_sense.Forecast.Seasonal.{or_nought, season_value, peak_from, predict_horizon_max}

module _ {W : Type 0} ⦃f : Float64 W⦄ (value : ℕ → W) where
  -- `r` is a value at one of the steps from `step` on, and none of them is above it.
  pub record IsPeak (left step : ℕ) (r : W) : Type 0 where
    pub at : ℕ
    pub inside : at < left
    pub attained : r ≡ value (step + at)
    pub above : (k : ℕ) → k < left → value (step + k) ≼ r

module _ {W : Type 0} ⦃f : Float64 W⦄ where
  -- No value of the list is NaN.
  abbrev pub AllNumbers : List W → Type 0
  AllNumbers [] = Unit
  AllNumbers (x ∷ xs) = IsNumber x × AllNumbers xs

  IsNumber-at :
      IsOrdered W → (xs : List W) (i : ℕ) → AllNumbers xs → IsNumber (or_nought (get_elem? xs i))
  IsNumber-at o [] i a = o.of_int_number (pos 0)
  IsNumber-at o (x ∷ xs) zero a = a.0
  IsNumber-at o (x ∷ xs) (suc i) a = IsNumber-at o xs i a.1

  season-IsNumber :
      IsOrdered W
      → (history : List W) (period : ℕ) → AllNumbers history
      → (k : ℕ) → IsNumber (season_value history period k)
  unfolding season_value
  season-IsNumber o history period a k = IsNumber-at o history _ a

module _ {W : Type 0} ⦃f : Float64 W⦄ (o : IsOrdered W) (value : ℕ → W)
    (numbers : (k : ℕ) → IsNumber (value k)) where
  le_of_not_lt : (x y : W) → IsNumber x → IsNumber y → f.lt x y ≡ false → y ≼ x
  le_of_not_lt x y h k e = ground (arith, o.lt-eq-not-le x y h k)

  le_of_lt : (x y : W) → f.lt x y ≡ true → x ≼ y
  le_of_lt x y h =
      let (nx, ny) = o.number_of_lt x y h in
      ground (arith, o.lt-eq-not-le x y nx ny, o.le_total x y nx ny)

  -- The loop from `step` on, at the maximum `m` so far, gives `r`.
  record Peaks (left step : ℕ) (m r : W) : Type 0 where
    keeps : m ≼ r
    bounds : (k : ℕ) → k < left → value (step + k) ≼ r
    origin : (r ≡ m) ⊎ ((k : ℕ) × (k < left) × (r ≡ value (step + k)))

  -- One step that passes on `next`, which is `m` or the value at the step and is above both.
  Peaks-suc :
      (left step : ℕ) (m next r : W)
      → m ≼ next
      → value step ≼ next
      → (next ≡ m) ⊎ (next ≡ value step)
      → Peaks left (suc step) next r
      → Peaks (suc left) step m r
  Peaks-suc left step m next r a b c p = record {
    keeps = o.le_trans m next r a p.keeps;
    bounds = λ k. bound k;
    origin = elim p.origin [
      | inl same ↦ elim c [
        | inl e ↦ inl (same ∙ e)
        | inr e ↦ inr (0, omega arith, same ∙ e ∙ ap value (sym (at_zero step)))
      ]
      | inr (k, inside, e) ↦ inr (suc k, omega (arith, inside), e ∙ ap value (shift step k))
    ];
  }
    where
      at_zero : (n : ℕ) → n + 0 ≡ n
      at_zero n = omega arith

      shift : (n k : ℕ) → suc n + k ≡ n + suc k
      shift n k = omega arith

      bound : (k : ℕ) → k < suc left → value (step + k) ≼ r
      bound zero h = subst (λ i. value i ≼ r) (sym (at_zero step)) (o.le_trans _ next r b p.keeps)
      bound (suc k) h = subst (λ i. value i ≼ r) (shift step k) (p.bounds k (omega (arith, h)))

  peak_from-Peaks :
      (left step : ℕ) (m : W)
      → IsNumber m
      → Peaks left (suc step) m (peak_from value left (suc step) m)
  unfolding peak_from
  peak_from-Peaks zero step m n = record {
    keeps = n;
    bounds = λ k h. absurd (ground arith);
    origin = inl refl;
  }
  peak_from-Peaks (suc left) step m n =
      let v : W = value (suc step) in
      if_both (λ r. Peaks (suc left) (suc step) m r) (suc step == 0 || f.lt m v)
        (λ e.
          Peaks-suc left (suc step) m v _ (le_of_lt m v (ground arith)) (numbers (suc step))
            (inr refl) (peak_from-Peaks left (suc step) v (numbers (suc step))))
        (λ e.
          Peaks-suc left (suc step) m m _ n (le_of_not_lt m v n (numbers (suc step)) (ground arith))
            (inl refl) (peak_from-Peaks left (suc step) m n))

  peak_from-IsPeak : (left : ℕ) (m : W) → IsPeak value (suc left) 0 (peak_from value (suc left) 0 m)
  unfolding peak_from
  peak_from-IsPeak left m =
      let p =
        Peaks-suc left 0 (value 0) (value 0) _ (numbers 0) (numbers 0) (inl refl)
          (peak_from-Peaks left 0 (value 0) (numbers 0)) in
      elim p.origin [
        | inl same ↦ record { at = 0; inside = omega arith; attained = same; above = p.bounds }
        | inr (k, inside, e) ↦ record { at = k; inside = inside; attained = e; above = p.bounds }
      ]

zero_shift : (i : ℕ) → i ≡ 0 + i
zero_shift i = omega arith

suc_shift : (k i : ℕ) → suc (k + i) ≡ suc k + i
suc_shift k i = omega arith

module _ {W : Type 0} ⦃f : Float64 W⦄ where
  -- `r` is one of the list, and none of the list is above it.
  pub record IsLargest (r : W) (xs : List W) : Type 0 where
    pub among : Among r xs
    pub above : Every (λ x. x ≼ r) xs

  -- The values of the last season within the horizon: the forecast steps through the last `period`
  -- values of the history in order, and begins anew where the horizon is longer.
  abbrev pub last_season : ℕ → ℕ → List W → List W
  last_season period horizon history = take horizon (drop (length history - period) history)

  Among-get : (xs : List W) (i : ℕ) → i < length xs → Among (or_nought (get_elem? xs i)) xs
  Among-get [] i h = elim h [ ]
  Among-get (x ∷ xs) zero h = inl refl
  Among-get (x ∷ xs) (suc i) h = inr (Among-get xs i (omega (arith, h)))

  Every-get :
      (P : W → Type 0) (xs : List W)
      → ((i : ℕ) → i < length xs → P (or_nought (get_elem? xs i)))
      → Every P xs
  Every-get P [] h = tt
  Every-get P (x ∷ xs) h = (h 0 (omega arith), Every-get P xs (λ i k. h (suc i) (omega (arith, k))))

  get-take :
      (xs : List W) (n i : ℕ)
      → i < n
      → or_nought (get_elem? (take n xs) i) ≡ or_nought (get_elem? xs i)
  get-take xs zero i h = elim h [ ]
  get-take [] (suc n) i h = refl
  get-take (x ∷ xs) (suc n) zero h = refl
  get-take (x ∷ xs) (suc n) (suc i) h = get-take xs n i (omega (arith, h))

  get-drop :
      (xs : List W) (k i : ℕ)
      → or_nought (get_elem? (drop k xs) i) ≡ or_nought (get_elem? xs (k + i))
  get-drop xs zero i = ap (λ j. or_nought (get_elem? xs j)) (zero_shift i)
  get-drop [] (suc k) i = refl
  get-drop (x ∷ xs) (suc k) i =
      get-drop xs k i ∙ ap (λ j. or_nought (get_elem? (x ∷ xs) j)) (suc_shift k i)

  get-last_season :
      (period horizon : ℕ) (history : List W) (i : ℕ)
      → i < horizon
      → or_nought (get_elem? (last_season period horizon history) i)
        ≡ or_nought (get_elem? history ((length history - period) + i))
  get-last_season period horizon history i h =
      let k = length history - period in
      get-take (drop k history) horizon i h ∙ get-drop history k i

  length-last_season :
      (period horizon : ℕ) (history : List W)
      → period ≤ length history
      → (i : ℕ) → (i < length (last_season period horizon history)) ↔ (i < horizon) × (i < period)
  length-last_season period horizon history long i =
      let k = length history - period in
      let taken = length-take horizon (drop k history) in
      let dropped = length-drop k history in
      (
        λ h. (omega (arith, taken, h), omega (arith, taken, dropped, h)),
        λ (h, p). omega (arith, taken, dropped, h, p),
      )

  IsLargest-peak :
      (period horizon : ℕ) (history : List W) (r : W)
      → 1 ≤ period
      → period ≤ length history
      → IsPeak (season_value history period) horizon 0 r
      → IsLargest r (last_season period horizon history)
  unfolding season_value
  IsLargest-peak period horizon history r some_period long p =
      let season = last_season period horizon history in
      let i = (0 + p.at) % period in
      let early : i < horizon = omega (arith, mod-le (0 + p.at) period, p.inside) in
      let inside =
        (length-last_season period horizon history long i).1
          (early, mod-lt (0 + p.at) some_period) in
      record {
        among =
            subst (λ x. Among x season)
              (get-last_season period horizon history i early ∙ sym p.attained)
              (Among-get season i inside);
        above =
            Every-get (λ x. x ≼ r) season
              (λ j h.
                let (near, within) = (length-last_season period horizon history long j).0 h in
                let index : (0 + j) % period ≡ j =
                  ap (λ n. n % period) (sym (zero_shift j)) ∙ mod-eq_of_lt within in
                subst (λ x. x ≼ r)
                  (ap (λ n. or_nought (get_elem? history ((length history - period) + n))) index
                    ∙ sym (get-last_season period horizon history j near))
                  (p.above j near));
      }

-- A prediction of the seasonal baseline is the largest value of the last season of the history within
-- the horizon: the largest of its last `period` values, or of the first `horizon` of these where the
-- horizon is shorter, where no value of the history is NaN.
pub predict_horizon_max-IsLargest :
    {W : Type 0} ⦃f : Float64 W⦄ (o : IsOrdered W) (period horizon : ℤ) (history : List W) (r : W)
    → AllNumbers history
    → predict_horizon_max period history horizon ≡ ok r
    → IsLargest r (last_season (pos_part period) (pos_part horizon) history)
unfolding predict_horizon_max
predict_horizon_max-IsLargest ⦃f⦄ o period (pos (suc n)) history r a h =
    let value = season_value history (pos_part period) in
    let nought = f.of_int (pos 0) in
    let found : peak_from value (suc n) 0 nought ≡ r = ground arith in
    IsLargest-peak (pos_part period) (suc n) history r (ground arith) (ground arith) (
      subst (IsPeak value (suc n) 0) found
        (peak_from-IsPeak o value (season-IsNumber o history (pos_part period) a) n nought))
predict_horizon_max-IsLargest ⦃f⦄ o period (pos zero) history r a h = absurd (ground arith)
predict_horizon_max-IsLargest ⦃f⦄ o period (negsuc n) history r a h = absurd (ground arith)
