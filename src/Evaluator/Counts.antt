-- ===== src/Evaluator/Counts.antt =====
-- What a plan says of the gates of its manifest: each gate once, judged by its expression, and counted.
use vheatm.Prelude.{
  ◌+◌, ◌≡◌, refl, ap, sym, subst, ◌∙◌, Bool, true, false, Option, List, [], ◌∷◌, map, arith, length,
  any, All, Outcome, ok, raised, ◌||◌, ◌↔◌, ◌≢◌, inl, inr, Outcome-cases,
}
use vheatm.Json.{Json, Fields}
use vheatm.Activation.{TruthValue, Expr, ActivationError}
use vheatm.Activation.Evaluate.{evaluate}
use vheatm.Evaluator.Plan.{
  Runtime, Gate, GateState, active, inactive, GateResult, Counts, Plan, no_counts, count_state,
  count_gates, completion_blocked, is_unknown, gate_state, evaluate_gate, evaluate_manifest,
  manifest_gates, judged, judge_compiled,
}

or_false : (b : Bool) → b || completion_blocked no_counts ≡ b
unfolding completion_blocked
or_false true = refl
or_false false = refl

count_state-sum :
    (s : GateState) (c : Counts)
    → let n = count_state s c in
      n.active + n.inactive + n.unknown ≡ c.active + c.inactive + c.unknown + 1
unfolding count_state
count_state-sum active c = omega arith
count_state-sum inactive c = omega arith
count_state-sum GateState.unknown c = omega arith

count_state-blocked :
    (s : GateState) (c : Counts)
    → completion_blocked (count_state s c) ≡ is_unknown s || completion_blocked c
unfolding count_state completion_blocked
count_state-blocked active c = refl
count_state-blocked inactive c = refl
count_state-blocked GateState.unknown c = ground arith

count_gates-sums :
    (gs : List GateResult) (c : Counts)
    → let n = count_gates gs c in
      n.active + n.inactive + n.unknown ≡ c.active + c.inactive + c.unknown + length gs
unfolding count_gates
count_gates-sums [] c = omega arith
count_gates-sums (g ∷ gs) c =
    omega (arith, count_gates-sums gs (count_state g.state c), count_state-sum g.state c)

count_gates-unknown :
    (gs : List GateResult) (c : Counts)
    → completion_blocked (count_gates gs c)
      ≡ any (λ g. is_unknown g.state) gs || completion_blocked c
unfolding count_gates
count_gates-unknown [] c = refl
count_gates-unknown (g ∷ gs) c =
    ground (arith, count_gates-unknown gs (count_state g.state c), count_state-blocked g.state c)

module _ (R : Runtime) where
  abbrev pub Evaluates : Fields → Gate → TruthValue → Type 0
  Evaluates context gate t =
      (e : Expr) × (R.compile_activation gate.activation ≡ ok e)
      × (evaluate R.python e context ≡ ok t)

  -- A gate has a state only for a reason: active or inactive because its expression compiles and
  -- evaluates to true or to false, and unknown wherever anything else happens.
  unfoldable pub IsJudged : Fields → GateResult → Type 0
  IsJudged context g =
      (g.state ≡ active ↔ Evaluates context g.gate TruthValue.true)
      × (g.state ≡ inactive ↔ Evaluates context g.gate TruthValue.false)

  judged-state :
      (e : Expr) (context : Fields) (v : Outcome ActivationError TruthValue)
      → ((judged R e context v).0 ≡ active ↔ v ≡ ok TruthValue.true)
        × ((judged R e context v).0 ≡ inactive ↔ v ≡ ok TruthValue.false)
  unfolding gate_state
  judged-state e context (raised error) = ((λ h. cc, λ h. cc), (λ h. cc, λ h. cc))
  judged-state e context (ok TruthValue.true) = ((λ h. refl, λ h. refl), (λ h. cc, λ h. cc))
  judged-state e context (ok TruthValue.false) = ((λ h. cc, λ h. cc), (λ h. refl, λ h. refl))
  judged-state e context (ok TruthValue.unknown) = ((λ h. cc, λ h. cc), (λ h. cc, λ h. cc))

  decided_out : {A : Type 0} {s : GateState} → s ≢ GateState.unknown → GateState.unknown ≡ s → A
  decided_out decided h = ground (arith, decided, h)

  judge_compiled-state :
      (context : Fields) (compiled : Outcome ActivationError Expr) (s : GateState) (t : TruthValue)
      → (s ≢ GateState.unknown)
      → ((e : Expr)
          → (judged R e context (evaluate R.python e context)).0 ≡ s
            ↔ evaluate R.python e context ≡ ok t)
      → (judge_compiled R context compiled).0 ≡ s
        ↔ (e : Expr) × (compiled ≡ ok e) × (evaluate R.python e context ≡ ok t)
  judge_compiled-state context (raised error) s t decided each =
      (λ h. decided_out decided h, λ h. cc h.1)
  judge_compiled-state context (ok e) s t decided each =
      (λ h. (e, refl, (each e).0 h), λ h. ground (arith, (each e).1))

  evaluate_gate-IsJudged :
      (context : Fields) (gate : Gate) → IsJudged context (evaluate_gate R context gate)
  unfolding IsJudged evaluate_gate
  evaluate_gate-IsJudged context gate = (
    judge_compiled-state context (R.compile_activation gate.activation) active TruthValue.true
        (λ h. cc) (λ e. (judged-state e context (evaluate R.python e context)).0),
    judge_compiled-state context (R.compile_activation gate.activation) inactive TruthValue.false
        (λ h. cc) (λ e. (judged-state e context (evaluate R.python e context)).1),
  )

  evaluate_gates-IsJudged :
      (context : Fields) (gates : List Gate)
      → All (IsJudged context) (map (evaluate_gate R context) gates)
  evaluate_gates-IsJudged context [] = tt
  evaluate_gates-IsJudged context (gate ∷ gates) =
      (evaluate_gate-IsJudged context gate, evaluate_gates-IsJudged context gates)

  gates-evaluate :
      (context : Fields) (gates : List Gate)
      → map (λ g. g.gate) (map (evaluate_gate R context) gates) ≡ gates
  unfolding evaluate_gate
  gates-evaluate context [] = refl
  gates-evaluate context (gate ∷ gates) = ap (λ gs. gate ∷ gs) (gates-evaluate context gates)

  evaluate_manifest-gates :
      (manifest : Fields) (supplied : Option Fields) (revision parent reason bundle_root : Json)
      {plan : Plan}
      → evaluate_manifest R manifest supplied revision parent reason bundle_root ≡ ok plan
      → (gates : List Gate) × (manifest_gates manifest ≡ ok gates)
        × (plan.gates ≡ map (evaluate_gate R plan.context) gates)
  unfolding evaluate_manifest
  evaluate_manifest-gates manifest supplied revision parent reason bundle_root h =
      elim (Outcome-cases (manifest_gates manifest)) [
        | inl (gates, e) ↦ (gates, e, ground arith)
        | inr (error, e) ↦ ground arith
      ]

  -- A plan that is returned has the gates of its manifest in order. A gate is active exactly if its
  -- expression compiles and evaluates to true under the plan's context, and inactive exactly if it
  -- compiles and evaluates to false; so an expression with an error never deactivates its gate.
  pub evaluate_manifest-IsJudged :
      (manifest : Fields) (supplied : Option Fields) (revision parent reason bundle_root : Json)
      (plan : Plan)
      → evaluate_manifest R manifest supplied revision parent reason bundle_root ≡ ok plan
      → (manifest_gates manifest ≡ ok (map (λ g. g.gate) plan.gates))
        × All (IsJudged plan.context) plan.gates
  evaluate_manifest-IsJudged manifest supplied revision parent reason bundle_root plan h =
      let (gates, e, judged_gates) =
        evaluate_manifest-gates manifest supplied revision parent reason bundle_root h in
      (
        e
            ∙ sym (
                ap (λ gs. ok (map (λ g. g.gate) gs)) judged_gates
                ∙ ap ok (gates-evaluate plan.context gates)),
        subst (All (IsJudged plan.context)) (sym judged_gates)
            (evaluate_gates-IsJudged plan.context gates),
      )

-- The three counts of the loop over the gates add up to the number of gates, and completion is
-- blocked exactly if some gate is unknown.
pub count_gates-total :
    (gs : List GateResult)
    → let n = count_gates gs no_counts in
      (n.active + n.inactive + n.unknown ≡ length gs)
      × (completion_blocked n ≡ any (λ g. is_unknown g.state) gs)
count_gates-total gs =
    (omega (arith, count_gates-sums gs no_counts), count_gates-unknown gs no_counts ∙ or_false _)
