-- ===== src/Dataset/Inference/Suffix.antt =====
-- The real points that a surge is judged on.
use mathlib.Core.List.{reverse, reverse-cons}
use keda_replica_sense.Prelude.{
  pos, leb_ℤ, ◌<ℤ◌, ◌⊎◌, subst, sym, append_assoc, append-nil, Duration, List, [], ◌∷◌, ◌++◌, true,
  false, ◌≡◌, refl, inl, inr, arith, Bool-cases, ap, ◌∙◌,
}
use keda_replica_sense.Dataset.{Sample, Among, same_slot, keep_latest, last_of, gap}
use keda_replica_sense.Dataset.Points.{Within, Within-mono, Within-refl}
use keda_replica_sense.Dataset.Inference.{
  real_step, real_loop, real_contiguous_suffix, gap_threshold,
}

module _ {W : Type 0} where
  -- Newest first, neighbours lie in different slots.
  abbrev pub IsSlotted : Duration → List (Sample W) → Type 0
  IsSlotted interval [] = Unit
  IsSlotted interval (x ∷ []) = Unit
  IsSlotted interval (x ∷ y ∷ r) = (same_slot interval y x ≡ false) × IsSlotted interval (y ∷ r)

  same_slot_move :
      (interval : Duration) (a b c : Sample W)
      → same_slot interval b c ≡ true
      → same_slot interval a b ≡ false
      → same_slot interval a c ≡ false
  unfolding same_slot
  same_slot_move interval a b c h k = ground arith

  replace_head :
      (interval : Duration) (p s : Sample W) (ps : List (Sample W))
      → same_slot interval p s ≡ true
      → IsSlotted interval (p ∷ ps)
      → IsSlotted interval (s ∷ ps)
  replace_head interval p s [] e h = tt
  replace_head interval p s (q ∷ qs) e h = (same_slot_move interval q p s e h.0, h.1)

  -- The points kept after reading `s`, which is the newest of them.
  pub record Kept (interval : Duration) (obs : List (Sample W)) (s : Sample W)
      (real : List (Sample W)) : Type 0 where
    pub rest : List (Sample W)
    pub newest : real ≡ s ∷ rest
    pub within : Within rest obs
    pub slotted : IsSlotted interval (s ∷ rest)

  real_step-Kept :
      (interval : Duration) (obs : List (Sample W)) (real : List (Sample W)) (s : Sample W)
      → Within real obs
      → IsSlotted interval real
      → Kept interval obs s (real_step interval real s)
  unfolding real_step
  real_step-Kept interval obs [] s w h = record {
    rest = [];
    newest = refl;
    within = tt;
    slotted = tt;
  }
  real_step-Kept interval obs (p ∷ ps) s w h = elim (Bool-cases (same_slot interval p s)) [
    | inl e ↦ rw e (record {
      rest = ps;
      newest = refl;
      within = w.1;
      slotted = replace_head interval p s ps e h;
    })
    | inr e ↦ rw e (elim (Bool-cases (leb_ℤ (gap_threshold interval) (gap p s))) [
      | inl long ↦ rw long (record { rest = []; newest = refl; within = tt; slotted = tt })
      | inr short ↦ rw short (record { rest = p ∷ ps; newest = refl; within = w; slotted = (e, h) })
    ])
  ]

  real_loop-Kept :
      (interval : Duration) (obs real : List (Sample W)) (s : Sample W) (ss : List (Sample W))
      → Among s obs
      → Within ss obs
      → Within real obs
      → IsSlotted interval real
      → Kept interval obs (last_of s ss) (real_loop interval real (s ∷ ss))
  unfolding real_loop last_of
  real_loop-Kept interval obs real s [] a v w h = real_step-Kept interval obs real s w h
  real_loop-Kept interval obs real s (t ∷ ts) a v w h =
      let k = real_step-Kept interval obs real s w h in
      let inside : Within (real_step interval real s) obs = rw k.newest (a, k.within) in
      let slots : IsSlotted interval (real_step interval real s) = rw k.newest k.slotted in
      real_loop-Kept interval obs (real_step interval real s) t ts v.0 v.1 inside slots

  -- Newest first, every observation lies in the slot of the one before it or less than one and a half
  -- intervals after it.
  abbrev pub IsJoined : Duration → List (Sample W) → Type 0
  IsJoined interval [] = Unit
  IsJoined interval (x ∷ []) = Unit
  IsJoined interval (x ∷ y ∷ r) =
      ((same_slot interval y x ≡ true) ⊎ (leb_ℤ (gap_threshold interval) (gap y x) ≡ false))
      × IsJoined interval (y ∷ r)

  -- The oldest of the first list is not joined to the newest of the second.
  abbrev pub IsCut : Duration → List (Sample W) → List (Sample W) → Type 0
  IsCut interval recent [] = Unit
  IsCut interval [] (y ∷ older) = ⊥
  IsCut interval (x ∷ []) (y ∷ older) =
      (same_slot interval y x ≡ false) × (leb_ℤ (gap_threshold interval) (gap y x) ≡ true)
  IsCut interval (x ∷ z ∷ r) (y ∷ older) = IsCut interval (z ∷ r) (y ∷ older)

  -- Newest first, the latest observation of every slot.
  abbrev pub latest : Duration → List (Sample W) → List (Sample W)
  latest interval [] = []
  latest interval (x ∷ r) = keep_latest interval (latest interval r) x

  -- What the loop has kept of the observations that it has read, both newest first.
  record Reading (interval : Duration) (read real : List (Sample W)) : Type 0 where
    recent : List (Sample W)
    older : List (Sample W)
    split : read ≡ recent ++ older
    joined : IsJoined interval recent
    cut : IsCut interval recent older
    kept : real ≡ latest interval recent

  latest_head :
      (interval : Duration) (ps : List (Sample W)) (x : Sample W)
      → (rest : List (Sample W)) × (keep_latest interval ps x ≡ x ∷ rest)
  unfolding keep_latest
  latest_head interval [] x = ([], refl)
  latest_head interval (p ∷ ps) x = elim (Bool-cases (same_slot interval p x)) [
    | inl e ↦ (ps, rw e refl)
    | inr e ↦ (p ∷ ps, rw e refl)
  ]

  step_kept :
      (interval : Duration) (p s : Sample W) (ps : List (Sample W))
      → (same_slot interval p s ≡ true) ⊎ (leb_ℤ (gap_threshold interval) (gap p s) ≡ false)
      → real_step interval (p ∷ ps) s ≡ keep_latest interval (p ∷ ps) s
  unfolding real_step keep_latest
  step_kept interval p s ps (inl e) = rw e refl
  step_kept interval p s ps (inr e) = rw e refl

  IsCut-grown :
      (interval : Duration) (s p : Sample W) (r older : List (Sample W))
      → IsCut interval (p ∷ r) older
      → IsCut interval (s ∷ p ∷ r) older
  IsCut-grown interval s p r [] cut = tt
  IsCut-grown interval s p r (y ∷ older) cut = cut

  Reading-join :
      (interval : Duration) (read real : List (Sample W)) (s p : Sample W)
      (r ps older : List (Sample W))
      → read ≡ p ∷ r ++ older
      → IsJoined interval (p ∷ r)
      → IsCut interval (p ∷ r) older
      → real ≡ p ∷ ps
      → latest interval (p ∷ r) ≡ p ∷ ps
      → (same_slot interval p s ≡ true) ⊎ (leb_ℤ (gap_threshold interval) (gap p s) ≡ false)
      → Reading interval (s ∷ read) (real_step interval real s)
  Reading-join interval read real s p r ps older split joined cut same head j = record {
    recent = s ∷ p ∷ r;
    older = older;
    split = ap (λ xs. s ∷ xs) split;
    joined = (j, joined);
    cut = IsCut-grown interval s p r older cut;
    kept =
        ap (λ xs. real_step interval xs s) same
        ∙ step_kept interval p s ps j
        ∙ ap (λ xs. keep_latest interval xs s) (sym head);
  }

  step-Reading :
      (interval : Duration) (read real : List (Sample W)) (s : Sample W)
      (recent older : List (Sample W))
      → read ≡ recent ++ older
      → IsJoined interval recent
      → IsCut interval recent older
      → real ≡ latest interval recent
      → Reading interval (s ∷ read) (real_step interval real s)
  unfolding real_step keep_latest
  step-Reading interval read real s [] [] split joined cut kept =
      rw (split, kept)
        (record { recent = s ∷ []; older = []; split = refl; joined = tt; cut = tt; kept = refl })
  step-Reading interval read real s [] (y ∷ older) split joined cut kept = absurd cut
  step-Reading interval read real s (p ∷ r) older split joined cut kept =
      let (ps, head) = latest_head interval (latest interval r) p in
      let real_eq : real ≡ p ∷ ps = kept ∙ head in
      let join =
        λ (j : (same_slot interval p s ≡ true)
            ⊎ (leb_ℤ (gap_threshold interval) (gap p s) ≡ false)).
          Reading-join interval read real s p r ps older split joined cut real_eq head j in
      elim (Bool-cases (same_slot interval p s)) [
        | inl e ↦ join (inl e)
        | inr e ↦ elim (Bool-cases (leb_ℤ (gap_threshold interval) (gap p s))) [
          | inr short ↦ join (inr short)
          | inl long ↦ record {
            recent = s ∷ [];
            older = p ∷ r ++ older;
            split = ap (λ xs. s ∷ xs) split;
            joined = tt;
            cut = (e, long);
            kept = rw real_eq (rw (e, long, real_step) refl);
          }
        ]
      ]

  real_step-Reading :
      (interval : Duration) (read real : List (Sample W)) (s : Sample W)
      → Reading interval read real
      → Reading interval (s ∷ read) (real_step interval real s)
  real_step-Reading interval read real s k =
      step-Reading interval read real s k.recent k.older k.split k.joined k.cut k.kept

  real_loop-Reading :
      (interval : Duration) (ss read real : List (Sample W))
      → Reading interval read real
      → Reading interval (reverse ss ++ read) (real_loop interval real ss)
  unfolding real_loop
  real_loop-Reading interval [] read real k = k
  real_loop-Reading interval (s ∷ ss) read real k =
      let next =
        real_loop-Reading interval ss (s ∷ read) (real_step interval real s)
          (real_step-Reading interval read real s k) in
      subst (λ xs. Reading interval xs (real_loop interval (real_step interval real s) ss))
        (sym (ap (λ xs. xs ++ read) (reverse-cons s ss) ∙ append_assoc (reverse ss) (s ∷ []) read))
        next

  -- At a positive interval the suffix is made of the observations from the last break on, where an
  -- observation is in another slot than the one before it and one and a half intervals or more after
  -- it: it has the latest observation of each of their slots, no two neighbours in one slot, and ends
  -- in the newest observation.
  pub real_contiguous_suffix-Kept :
      (observed : List (Sample W)) (s : Sample W) (ss : List (Sample W)) (interval : Duration)
      → observed ≡ s ∷ ss
      → pos 0 <ℤ interval
      → (rest recent older : List (Sample W)) × (real_contiguous_suffix observed interval
          ≡ reverse rest ++ last_of s ss ∷ [])
        × IsSlotted interval (last_of s ss ∷ rest)
        × (reverse observed ≡ recent ++ older)
        × IsJoined interval recent
        × IsCut interval recent older
        × (last_of s ss ∷ rest ≡ latest interval recent)
  unfolding real_contiguous_suffix
  real_contiguous_suffix-Kept observed s ss interval e p =
      let positive : leb_ℤ interval (pos 0) ≡ false = ground arith in
      let k =
        real_loop-Kept interval (s ∷ ss) [] s ss (inl refl) (Within-mono ss ss s (Within-refl ss))
          tt tt in
      let start : Reading interval [] [] = record {
        recent = [];
        older = [];
        split = refl;
        joined = tt;
        cut = tt;
        kept = refl;
      } in
      let reading = real_loop-Reading interval (s ∷ ss) [] [] start in
      rw (e, positive)
        (
          k.rest,
          reading.recent,
          reading.older,
          ap reverse k.newest ∙ reverse-cons (last_of s ss) k.rest,
          k.slotted,
          sym (append-nil (reverse (s ∷ ss))) ∙ reading.split,
          reading.joined,
          reading.cut,
          sym k.newest ∙ reading.kept,
        )
