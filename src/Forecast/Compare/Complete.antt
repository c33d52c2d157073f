-- ===== src/Forecast/Compare/Complete.antt =====
-- The windows that a comparison evaluates.
use keda_replica_sense.Prelude.{
  ℕ, zero, suc, ◌+◌, ◌-◌, ◌≤◌, ◌<◌, ℤ, pos, ltb_ℤ, ◌≤ℤ◌, leb, ◌==◌, Time, Duration, is_zero_time,
  List, [], ◌∷◌, length, take, drop, get_or, Bool, true, false, not, ◌&&◌, ◌||◌, if◌then◌else◌, ◌≡◌,
  ◌⊎◌, refl, arith, Bool-cases, inl, inr, Every, subst, or_false_both, if_both,
}
use keda_replica_sense.Dataset.{Sample}
use keda_replica_sense.Dataset.Training.{next_slot}
use keda_replica_sense.Forecast.Compare.{
  time_at, gaps_from, gaps_of, is_skipped, windows_from, windows,
}

equal_of : (a b : ℕ) → not (a == b) ≡ false → a ≡ b
equal_of a b e = ground arith

zero_or_le : (z : Bool) (a b : ℤ) → (not z && ltb_ℤ a b) ≡ false → (z ≡ true) ⊎ (b ≤ℤ a)
zero_or_le true a b e = inl refl
zero_or_le false a b e = inr (ground arith)

le_of : (a b : ℤ) → ltb_ℤ a b ≡ false → b ≤ℤ a
le_of a b e = ground arith

module _ {W : Type 0} (interval : Duration) where
  -- Every point lies in the slot after the one before it.
  abbrev pub IsUnbroken : List (Sample W) → Type 0
  IsUnbroken [] = Unit
  IsUnbroken (p ∷ []) = Unit
  IsUnbroken (p ∷ s ∷ ss) = (next_slot interval p s ≡ true) × IsUnbroken (s ∷ ss)

  gaps_from-le :
      (n : ℕ) (p : Sample W) (ss : List (Sample W)) (i : ℕ)
      → i ≤ length ss
      → n ≤ get_or (n ∷ gaps_from interval n p ss) i 0
  unfolding gaps_from
  gaps_from-le n p ss zero h = omega arith
  gaps_from-le n p [] (suc i) h = absurd (omega arith)
  gaps_from-le n p (s ∷ ss) (suc i) h =
      let here = if next_slot interval p s then n else suc n in
      let rest = gaps_from-le here s ss i (omega (arith, h)) in
      let above : n ≤ here = ground arith in omega (arith, rest, above)

  IsUnbroken-front :
      (n : ℕ) (p : Sample W) (ss : List (Sample W)) (i : ℕ)
      → i ≤ length ss
      → get_or (n ∷ gaps_from interval n p ss) i 0 ≡ n
      → IsUnbroken (take (suc i) (p ∷ ss))
  unfolding gaps_from
  IsUnbroken-front n p ss zero h e = tt
  IsUnbroken-front n p [] (suc i) h e = absurd (omega arith)
  IsUnbroken-front n p (s ∷ ss) (suc i) h e =
      let Counted = λ (b : Bool).
        get_or ((if b then n else suc n) ∷ gaps_from interval (if b then n else suc n) s ss) i 0
        ≡ n in
      elim (Bool-cases (next_slot interval p s)) [
        | inl same ↦ (same, IsUnbroken-front n s ss i (omega (arith, h)) (subst Counted same e))
        | inr off ↦
            let high = gaps_from-le (suc n) s ss i (omega (arith, h)) in
            let low = subst Counted off e in absurd (omega (arith, high, low))
      ]

  IsUnbroken-between :
      (n : ℕ) (p : Sample W) (ss : List (Sample W)) (i j k : ℕ)
      → j ≡ i + k
      → j ≤ length ss
      → get_or (n ∷ gaps_from interval n p ss) j 0 ≡ get_or (n ∷ gaps_from interval n p ss) i 0
      → IsUnbroken (take (suc k) (drop i (p ∷ ss)))
  unfolding gaps_from
  IsUnbroken-between n p ss zero j k sum h e =
      let same : j ≡ k = omega (arith, sum) in
      IsUnbroken-front n p ss k (omega (arith, same, h)) (rw same at e)
  IsUnbroken-between n p ss (suc i) zero k sum h e = absurd (omega (arith, sum))
  IsUnbroken-between n p [] (suc i) (suc j) k sum h e = absurd (omega (arith, h))
  IsUnbroken-between n p (s ∷ ss) (suc i) (suc j) k sum h e =
      IsUnbroken-between (if next_slot interval p s then n else suc n) s ss i j k
        (omega (arith, sum)) (omega (arith, h)) e

  gaps_of-IsUnbroken :
      (samples : List (Sample W)) (i j k : ℕ)
      → j ≡ i + k
      → j < length samples
      → get_or (gaps_of interval samples) j 0 ≡ get_or (gaps_of interval samples) i 0
      → IsUnbroken (take (suc k) (drop i samples))
  unfolding gaps_of
  gaps_of-IsUnbroken [] i j k sum h e = absurd (omega arith)
  gaps_of-IsUnbroken (p ∷ ss) i j k sum h e =
      IsUnbroken-between 0 p ss i j k sum (omega (arith, h)) e

  module _ (after : Time) (history steps : ℕ) (samples : List (Sample W)) where
    -- A window with a whole history and horizon of successive slots, whose origin is not before `after`.
    abbrev pub IsComplete : ℕ → Type 0
    IsComplete cut =
        (history ≤ cut)
        × (cut + steps ≤ length samples)
        × (after ≤ℤ time_at samples (cut - 1))
        × IsUnbroken (take (history + steps) (drop (cut - history) samples))

    -- The origin of every window is not before the end of the one before it, `last` at the start.
    abbrev pub AreApart : Time → List ℕ → Type 0
    AreApart last [] = Unit
    AreApart last (cut ∷ cuts) =
        ((is_zero_time last ≡ true) ⊎ (last ≤ℤ time_at samples (cut - 1)))
        × AreApart (time_at samples (cut + steps - 1)) cuts

    taken-IsComplete :
        (cut : ℕ) (last : Time)
        → 1 ≤ history
        → 1 ≤ steps
        → history ≤ cut
        → cut + steps ≤ length samples
        → is_skipped after history steps samples (gaps_of interval samples) cut last ≡ false
        → IsComplete cut × ((is_zero_time last ≡ true) ⊎ (last ≤ℤ time_at samples (cut - 1)))
    taken-IsComplete cut last some_history some_step low high e =
        let origin = time_at samples (cut - 1) in
        let gaps = gaps_of interval samples in
        let end = get_or gaps (cut + steps - 1) 0 in
        let front = get_or gaps (cut - history) 0 in
        let apart = not (is_zero_time last) && ltb_ℤ origin last in
        let (before, broken) = or_false_both (ltb_ℤ origin after || apart) (not (end == front)) e in
        let (early, overlaps) = or_false_both (ltb_ℤ origin after) apart before in
        let whole =
          gaps_of-IsUnbroken samples (cut - history) (cut + steps - 1) (history + steps - 1)
            (omega arith) (omega arith) (equal_of end front broken) in
        let count : suc (history + steps - 1) ≡ history + steps = omega arith in
        (
          (
            low,
            high,
            le_of origin after early,
            subst (λ n. IsUnbroken (take n (drop (cut - history) samples))) count whole,
          ),
          zero_or_le (is_zero_time last) origin last overlaps,
        )

    windows_from-AreComplete :
        (left cut : ℕ) (last : Time)
        → 1 ≤ history
        → 1 ≤ steps
        → history ≤ cut
        → left + cut + steps ≤ suc (length samples)
        → Every IsComplete
            (windows_from after history steps samples (gaps_of interval samples) left cut last)
          × AreApart last
              (windows_from after history steps samples (gaps_of interval samples) left cut last)
    unfolding windows_from
    windows_from-AreComplete zero cut last some_history some_step low high = (tt, tt)
    windows_from-AreComplete (suc left) cut last some_history some_step low high =
        if_both (λ cuts. Every IsComplete cuts × AreApart last cuts)
          (is_skipped after history steps samples (gaps_of interval samples) cut last)
          (λ e.
            windows_from-AreComplete left (suc cut) last some_history some_step (omega arith)
              (omega arith))
          (λ e.
            let (complete, apart) =
              taken-IsComplete cut last some_history some_step low (omega arith) e in
            let (all, rest) =
              windows_from-AreComplete left (suc cut) (time_at samples (cut + steps - 1))
                some_history some_step (omega arith) (omega arith) in
            ((complete, all), (apart, rest)))

    -- Every window that a comparison considers has a whole history and horizon of observed points in
    -- successive slots and an origin not before the bound, and begins no earlier than the one before
    -- it ends, where a window has a point of history and a step at least.
    pub windows-AreComplete :
        1 ≤ history
        → 1 ≤ steps
        → Every IsComplete (windows interval after history steps samples)
          × AreApart (pos 0) (windows interval after history steps samples)
    unfolding windows windows_from
    windows-AreComplete some_history some_step =
        let left = suc (length samples) - (history + steps) in
        elim (Bool-cases (leb (history + steps) (suc (length samples)))) [
          | inl e ↦
              windows_from-AreComplete left history (pos 0) some_history some_step (omega arith)
                (ground arith)
          | inr e ↦ let over : left ≡ 0 = ground arith in rw over (tt, tt)
        ]
