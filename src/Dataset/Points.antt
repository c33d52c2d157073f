-- ===== src/Dataset/Points.antt =====
-- Lists of points that come from a data set.
use mathlib.Core.List.{reverse, reverse-cons}
use keda_replica_sense.Prelude.{
  Duration, List, [], ◌∷◌, ◌++◌, refl, inl, inr, Bool-cases, sym, subst,
}
use keda_replica_sense.Dataset.{Sample, Among, keep_latest, same_slot}

module _ {W : Type 0} where
  -- Every point of the first list is one of the second.
  abbrev pub Within : List (Sample W) → List (Sample W) → Type 0
  Within [] obs = Unit
  Within (x ∷ xs) obs = Among x obs × Within xs obs

  Among-of_Within :
      (x : Sample W) (xs obs : List (Sample W)) → Among x xs → Within xs obs → Among x obs
  Among-of_Within x [] obs a w = absurd a
  Among-of_Within x (y ∷ ys) obs (inl e) w = subst (λ t. Among t obs) (sym e) w.0
  Among-of_Within x (y ∷ ys) obs (inr a) w = Among-of_Within x ys obs a w.1

  pub Within-mono : (xs obs : List (Sample W)) (y : Sample W) → Within xs obs → Within xs (y ∷ obs)
  Within-mono [] obs y w = tt
  Within-mono (x ∷ xs) obs y w = (inr w.0, Within-mono xs obs y w.1)

  pub Within-refl : (xs : List (Sample W)) → Within xs xs
  Within-refl [] = tt
  Within-refl (x ∷ xs) = (inl refl, Within-mono xs xs x (Within-refl xs))

  pub Within-trans : (xs ys zs : List (Sample W)) → Within xs ys → Within ys zs → Within xs zs
  Within-trans [] ys zs v w = tt
  Within-trans (x ∷ xs) ys zs v w = (Among-of_Within x ys zs v.0 w, Within-trans xs ys zs v.1 w)

  pub Within-append :
      (xs ys obs : List (Sample W)) → Within xs obs → Within ys obs → Within (xs ++ ys) obs
  Within-append [] ys obs v w = w
  Within-append (x ∷ xs) ys obs v w = (v.0, Within-append xs ys obs v.1 w)

  pub Within-reverse : (xs obs : List (Sample W)) → Within xs obs → Within (reverse xs) obs
  Within-reverse [] obs w = tt
  Within-reverse (x ∷ xs) obs w =
      rw (reverse-cons x xs)
        (Within-append (reverse xs) (x ∷ []) obs (Within-reverse xs obs w.1) (w.0, tt))

  pub keep_latest-Within :
      (interval : Duration) (points obs : List (Sample W)) (s : Sample W)
      → Among s obs
      → Within points obs
      → Within (keep_latest interval points s) obs
  unfolding keep_latest
  keep_latest-Within interval [] obs s a w = (a, tt)
  keep_latest-Within interval (p ∷ ps) obs s a w = elim (Bool-cases (same_slot interval p s)) [
    | inl e ↦ rw e (a, w.1)
    | inr e ↦ rw e (a, w)
  ]
