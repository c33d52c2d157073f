-- ===== src/Dataset/Quality/Contiguous.antt =====
-- The newest contiguous run of a data set.
use keda_replica_sense.Prelude.{
  ℕ, ◌+◌, pos, ltb, ltb_ℤ, leb_ℤ, ◌≤ℤ◌, ◌<ℤ◌, Duration, List, [], ◌∷◌, ◌++◌, length, drop, true,
  false, ◌≡◌, refl, inl, inr, arith, length-append, append_assoc, append-nil, ◌∙◌, sym, Bool-cases,
  ap,
}
use keda_replica_sense.Dataset.{Sample, gap, last_of}
use keda_replica_sense.Dataset.Quality.{
  QualityPolicy, maximum_gap, last_break, most_recent_contiguous,
}

module _ {W : Type 0} where
  -- No gap between neighbours is above the bound.
  abbrev pub IsContiguous : Duration → List (Sample W) → Type 0
  IsContiguous m [] = Unit
  IsContiguous m (x ∷ []) = Unit
  IsContiguous m (x ∷ y ∷ r) = (gap x y ≤ℤ m) × IsContiguous m (y ∷ r)

  -- A run starts the data set, or follows a gap above the bound.
  abbrev pub StartsRun : Duration → List (Sample W) → List (Sample W) → Type 0
  StartsRun m [] run = Unit
  StartsRun m (o ∷ os) [] = ⊥
  StartsRun m (o ∷ os) (x ∷ r) = m <ℤ gap (last_of o os) x

  IsContiguous-snoc :
      (m : Duration) (c : Sample W) (cs : List (Sample W)) (s : Sample W)
      → IsContiguous m (c ∷ cs)
      → gap (last_of c cs) s ≤ℤ m
      → IsContiguous m (c ∷ (cs ++ s ∷ []))
  unfolding last_of
  IsContiguous-snoc m c [] s h k = (k, tt)
  IsContiguous-snoc m c (d ∷ ds) s h k = (h.0, IsContiguous-snoc m d ds s h.1 k)

  last_of-snoc : (c : Sample W) (cs : List (Sample W)) (s : Sample W) → last_of c (cs ++ s ∷ []) ≡ s
  unfolding last_of
  last_of-snoc c [] s = refl
  last_of-snoc c (d ∷ ds) s = last_of-snoc d ds s

  last_of-append :
      (o c : Sample W) (os cs : List (Sample W)) → last_of o (os ++ c ∷ cs) ≡ last_of c cs
  unfolding last_of
  last_of-append o c [] cs = refl
  last_of-append o c (p ∷ os) cs = last_of-append p c os cs

  drop-append : (xs ys : List (Sample W)) → drop (length xs) (xs ++ ys) ≡ ys
  drop-append [] ys = refl
  drop-append (x ∷ xs) ys = drop-append xs ys

  StartsRun-next :
      (m : Duration) (older : List (Sample W)) (c : Sample W) (cs : List (Sample W)) (s : Sample W)
      → m <ℤ gap (last_of c cs) s
      → (rest : List (Sample W)) → StartsRun m (older ++ c ∷ cs) (s ∷ rest)
  StartsRun-next m [] c cs s h rest = h
  StartsRun-next m (o ∷ os) c cs s h rest = rw (last_of-append o c os cs) h

  -- The data set split at the index of the loop.
  pub record Split (m : Duration) (samples : List (Sample W)) (start : ℕ) : Type 0 where
    pub older : List (Sample W)
    pub run : List (Sample W)
    pub whole : older ++ run ≡ samples
    pub at : length older ≡ start
    pub contiguous : IsContiguous m run
    pub maximal : StartsRun m older run

  StartsRun-head :
      (m : Duration) (older : List (Sample W)) (c : Sample W) (cs ds : List (Sample W))
      → StartsRun m older (c ∷ cs)
      → StartsRun m older (c ∷ ds)
  StartsRun-head m [] c cs ds h = tt
  StartsRun-head m (o ∷ os) c cs ds h = h

  -- The loop, after `older` and with the run `c ∷ cs` so far, splits the whole data set.
  loop-Split :
      (m : Duration) (samples older : List (Sample W)) (c : Sample W) (cs rest : List (Sample W))
      (i k : ℕ) (previous : Sample W)
      → older ++ (c ∷ (cs ++ rest)) ≡ samples
      → i ≡ length older + length (c ∷ cs)
      → k ≡ length older
      → previous ≡ last_of c cs
      → IsContiguous m (c ∷ cs)
      → StartsRun m older (c ∷ cs)
      → Split m samples (last_break m i k previous rest)
  unfolding last_break last_of
  loop-Split m samples older c cs [] i k previous whole ei ek ep h a = record {
    older = older;
    run = c ∷ cs;
    whole = ap (λ (t : List (Sample W)). older ++ (c ∷ t)) (sym (append-nil cs)) ∙ whole;
    at = sym ek;
    contiguous = h;
    maximal = a;
  }
  loop-Split m samples older c cs (s ∷ ss) i k previous whole ei ek ep h a =
      elim (Bool-cases (ltb_ℤ m (gap previous s))) [
        | inl e ↦ rw e (
            loop-Split m samples (older ++ c ∷ cs) s [] ss (i + 1) i s
              (append_assoc older (c ∷ cs) (s ∷ ss) ∙ whole)
              (omega (arith, ei, length-append older (c ∷ cs)))
              (omega (arith, ei, length-append older (c ∷ cs))) refl tt
              (StartsRun-next m older c cs s (rw ep at (over e)) []))
        | inr e ↦ rw e (
            loop-Split m samples older c (cs ++ s ∷ []) ss (i + 1) k s
              (ap (λ (t : List (Sample W)). older ++ (c ∷ t)) (append_assoc cs (s ∷ []) ss) ∙ whole)
              (omega (arith, ei, length-append cs (s ∷ []))) ek (sym (last_of-snoc c cs s))
              (IsContiguous-snoc m c cs s h (rw ep at (within e)))
              (StartsRun-head m older c cs (cs ++ s ∷ []) a))
      ]
    where
      over : ltb_ℤ m (gap previous s) ≡ true → m <ℤ gap previous s
      over e = ground arith

      within : ltb_ℤ m (gap previous s) ≡ false → gap previous s ≤ℤ m
      within e = ground arith

  run_of_Split :
      (m : Duration) (samples : List (Sample W)) (k : ℕ) (s : Split m samples k)
      → drop k samples ≡ s.run
  run_of_Split m samples k s = rw (← s.whole, ← s.at) (drop-append s.older s.run)

  -- At a positive interval the result is the newest contiguous run: the data set is some older part
  -- followed by it, no gap within it is above the maximum, and the older part, if there is any, ends
  -- in a gap above the maximum.
  pub most_recent_contiguous_run :
      (samples : List (Sample W)) (p : QualityPolicy)
      → pos 0 <ℤ p.sampling_interval
      → let run = most_recent_contiguous samples p in
        (older : List (Sample W)) × (older ++ run ≡ samples)
        × IsContiguous (maximum_gap p) run
        × StartsRun (maximum_gap p) older run
  unfolding most_recent_contiguous last_of
  most_recent_contiguous_run [] p h = ([], refl, tt, tt)
  most_recent_contiguous_run (s ∷ []) p h = ([], refl, tt, tt)
  most_recent_contiguous_run (s ∷ t ∷ ss) p h =
      let m : Duration = maximum_gap p in
      let split : Split m (s ∷ t ∷ ss) (last_break m 1 0 s (t ∷ ss)) =
        loop-Split m (s ∷ t ∷ ss) [] s [] (t ∷ ss) 1 0 s refl refl refl refl tt tt in
      let run = run_of_Split m (s ∷ t ∷ ss) (last_break m 1 0 s (t ∷ ss)) split in
      let positive : leb_ℤ p.sampling_interval (pos 0) ≡ false = ground arith in
      let long : ltb (length (s ∷ t ∷ ss)) 2 ≡ false = ground arith in
      rw (long, positive) (rw run (split.older, split.whole, split.contiguous, split.maximal))
