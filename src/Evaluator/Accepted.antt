-- ===== src/Evaluator/Accepted.antt =====
-- What a plan that `assert_plan_matches` accepts is known to be.
use vheatm.Prelude.{◌≡◌, true, some, List, map}
use vheatm.Json.{Json, Fields, str, arr, get, field_is, from_list}
use vheatm.Evaluator.Plan.{Runtime, Plan, GateResult, state_text}

module _ (R : Runtime) where
  -- A gate of a plan says what the evaluator found of a gate: its expression, state and unknown
  -- references, and a layer and a phase that Python finds equal.
  abbrev pub Says : Fields → GateResult → Type 0
  Says gate g =
      (get "activation" gate ≡ some (str g.gate.activation))
      × (get "activation_state" gate ≡ some (str (state_text g.state)))
      × (get "unknown_references" gate ≡ some (arr (from_list (map str g.unknown_references))))
      × (field_is R.python (get "layer" gate) g.gate.layer ≡ true)
      × (field_is R.python (get "phase" gate) g.gate.phase ≡ true)
