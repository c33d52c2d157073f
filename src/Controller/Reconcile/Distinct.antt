-- ===== src/Controller/Reconcile/Distinct.antt =====
-- The workloads of one object have distinct triggers.
use text.Mathlib.TextEquality.{eq_iff}
use keda_replica_sense.Prelude.{
  ℕ, ◌+◌, ◌≤◌, ltb, String, str_eq, true, false, ◌&&◌, some, if◌then◌else◌, Float64, List, [], ◌∷◌,
  ◌≡◌, ◌≢◌, inl, inr, refl, arith, Bool-cases, Option-cases, ap, sym, subst, ◌∙◌, Every,
}
use keda_replica_sense.Domain.{WorkloadKey, WorkloadSpec}
use keda_replica_sense.ScaledObject.Input.{Standard, TriggerInput, ScaledObjectInput, ParserOptions}
use keda_replica_sense.ScaledObject.Parser.{
  is_replica_sense_trigger, select, predictive_triggers, seen, parse_candidate, parse_triggers,
}
use keda_replica_sense.Controller.Reconcile.{desired_of}
use keda_replica_sense.ScaledObject.Parser.Contract.{parse_candidate-named}

abbrev pub trigger_of : {W : Type 0} → WorkloadSpec W → String
trigger_of spec = spec.key.predictive_trigger_name

-- No two of the workloads have one trigger.
abbrev pub AreDistinct : {W : Type 0} → List (WorkloadSpec W) → Type 0
AreDistinct [] = Unit
AreDistinct (s ∷ ss) = Every (λ t. trigger_of t ≢ trigger_of s) ss × AreDistinct ss

suc_not_zero : (n : ℕ) → 1 + n ≢ 0
suc_not_zero n h = absurd (omega arith)

none_left : (n m k : ℕ) → m ≡ 1 + n → m ≤ k → ltb 1 k ≡ false → n ≡ 0
none_left n m k e h one = ground arith

seen-cons :
    (options : ParserOptions) (t : TriggerInput) (ts : List TriggerInput) (name : String)
    → seen options (t ∷ ts) name
      ≡ (if is_replica_sense_trigger options t && str_eq t.name name then 1 else 0)
        + seen options ts name
unfolding seen predictive_triggers select
seen-cons options t ts name = elim (Bool-cases (is_replica_sense_trigger options t)) [
  | inl e ↦ elim (Bool-cases (str_eq t.name name)) [
    | inl e' ↦ rw (e, e') (omega arith)
    | inr e' ↦ rw (e, e') (omega arith)
  ]
  | inr e ↦ rw e (omega arith)
]

module _ {W : Type 0} ⦃f : Float64 W⦄ (std : Standard W) (input : ScaledObjectInput)
    (options : ParserOptions) where
  -- A predictive trigger that does not use a name makes no workload that has it.
  spec_avoids :
      (name : String) (t : TriggerInput) (ts : List TriggerInput) (spec : WorkloadSpec W)
      → is_replica_sense_trigger options t ≡ true
      → seen options (t ∷ ts) name ≡ 0
      → (parse_candidate std input options t).spec ≡ some spec
      → trigger_of spec ≢ name
  spec_avoids name t ts spec predictive unused given same =
      let (unique, single, keyed) = parse_candidate-named std input options t given in
      let e : t.name ≡ name = ap (λ (k : WorkloadKey). k.predictive_trigger_name) keyed ∙ same in
      absurd (
        suc_not_zero _ (
          sym (rw (predictive, (eq_iff t.name name).1 e) at (seen-cons options t ts name))
          ∙ unused))

  parse_triggers-avoids :
      (name : String) (ts : List TriggerInput)
      → seen options ts name ≡ 0
      → Every (λ t. trigger_of t ≢ name) (desired_of (parse_triggers std input options ts))
  unfolding desired_of parse_triggers
  parse_triggers-avoids name [] h = tt
  parse_triggers-avoids name (t ∷ ts) h =
      let rest = parse_triggers-avoids name ts (omega (arith, seen-cons options t ts name)) in
      elim (Bool-cases (is_replica_sense_trigger options t)) [
        | inl e ↦ rw e (elim (Option-cases (parse_candidate std input options t).spec) [
          | inl e' ↦ rw e' rest
          | inr (spec, e') ↦ rw e' (spec_avoids name t ts spec e h e', rest)
        ])
        | inr e ↦ rw e rest
      ]

  pub parse_triggers-AreDistinct :
      (ts : List TriggerInput)
      → ((name : String) → seen options ts name ≤ seen options input.triggers name)
      → AreDistinct (desired_of (parse_triggers std input options ts))
  unfolding desired_of parse_triggers
  parse_triggers-AreDistinct [] h = tt
  parse_triggers-AreDistinct (t ∷ ts) h =
      let rest =
        parse_triggers-AreDistinct ts
          (λ name. omega (arith, h name, seen-cons options t ts name)) in
      elim (Bool-cases (is_replica_sense_trigger options t)) [
        | inl e ↦ rw e (elim (Option-cases (parse_candidate std input options t).spec) [
          | inl e' ↦ rw e' rest
          | inr (spec, e') ↦
              let (unique, single, keyed) = parse_candidate-named std input options t e' in
              let alone : seen options ts t.name ≡ 0 =
                none_left (seen options ts t.name) (seen options (t ∷ ts) t.name)
                  (seen options input.triggers t.name)
                  (rw (e, (eq_iff t.name t.name).1 refl) at (seen-cons options t ts t.name))
                  (h t.name) unique in
              rw e' (
                subst
                    (λ n.
                      Every (λ u. trigger_of u ≢ n)
                        (desired_of (parse_triggers std input options ts)))
                    (ap (λ (k : WorkloadKey). k.predictive_trigger_name) keyed)
                    (parse_triggers-avoids t.name ts alone),
                rest,
              )
        ])
        | inr e ↦ rw e rest
      ]

  -- Every workload that is desired stems from a predictive trigger of the object.
  pub parse_triggers-Every :
      (P : WorkloadSpec W → Type 0) (ts : List TriggerInput)
      → ((t : TriggerInput) (spec : WorkloadSpec W)
          → (parse_candidate std input options t).spec ≡ some spec
          → P spec)
      → Every P (desired_of (parse_triggers std input options ts))
  unfolding desired_of parse_triggers
  parse_triggers-Every P [] each = tt
  parse_triggers-Every P (t ∷ ts) each =
      let rest = parse_triggers-Every P ts each in
      elim (Bool-cases (is_replica_sense_trigger options t)) [
        | inl e ↦ rw e (elim (Option-cases (parse_candidate std input options t).spec) [
          | inl e' ↦ rw e' rest
          | inr (spec, e') ↦ rw e' (each t spec e', rest)
        ])
        | inr e ↦ rw e rest
      ]
