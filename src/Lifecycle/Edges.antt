-- ===== src/Lifecycle/Edges.antt =====
-- The transition diagram of the audit lifecycle, as a relation, and the walks along it.
use vheatm.Prelude.{String, ◌≡◌, refl, ◌↔◌, some, true, List, [], ◌∷◌, arith, eq_iff}
use vheatm.Lifecycle.{
  State, created, context_validated, planned, running, blocked, partial, complete, attested,
  state_name, state_of, permits,
}

infix 40 ◌⟶◌
pub data ◌⟶◌ : State → State → Type 0 where
  validate : created ⟶ context_validated
  plan : context_validated ⟶ planned
  run : planned ⟶ running
  block : running ⟶ blocked
  pause : running ⟶ partial
  finish : running ⟶ complete
  unblock : blocked ⟶ running
  resume : partial ⟶ running
  attest : complete ⟶ attested

permits→⟶ : (s t : State) → permits s t ≡ true → s ⟶ t
unfolding permits
permits→⟶ created context_validated h = validate
permits→⟶ context_validated planned h = plan
permits→⟶ planned running h = run
permits→⟶ running blocked h = block
permits→⟶ running partial h = pause
permits→⟶ running complete h = finish
permits→⟶ blocked running h = unblock
permits→⟶ partial running h = resume
permits→⟶ complete attested h = attest
permits→⟶ _ _ h = cc

⟶→permits : {s t : State} → s ⟶ t → permits s t ≡ true
unfolding permits
⟶→permits validate = refl
⟶→permits _ = refl

-- The table admits a transition exactly when the diagram has that edge.
pub permits_iff : (s t : State) → (permits s t ≡ true) ↔ (s ⟶ t)
permits_iff s t = (permits→⟶ s t, ⟶→permits)

pub state_of-state_name : (s : State) → state_of (state_name s) ≡ some s
unfolding state_of
state_of-state_name created = refl
state_of-state_name _ = refl

pub state_of-eq_some : (n : String) (s : State) → state_of n ≡ some s → state_name s ≡ n
unfolding state_of
state_of-eq_some n s h = ground (
  arith,
  eq_iff "created" n,
  eq_iff "context_validated" n,
  eq_iff "planned" n,
  eq_iff "running" n,
  eq_iff "blocked" n,
  eq_iff "partial" n,
  eq_iff "complete" n,
  eq_iff "attested" n,
)

-- A walk from one state to another, with the states that it enters, in order.
pub data Walk : State → List State → State → Type 0 where
  here : {s : State} → Walk s [] s
  onward : {s t u : State} {vs : List State} → s ⟶ t → Walk t vs u → Walk s (t ∷ vs) u

pub data Visits (s : State) : List State → Type 0 where
  first : {vs : List State} → Visits s (s ∷ vs)
  later : {t : State} {vs : List State} → Visits s vs → Visits s (t ∷ vs)

-- What a walk to `attested` still has to enter from each state.
abbrev Remaining : State → List State → Type 0
Remaining created vs =
    Visits context_validated vs × Visits planned vs × Visits running vs × Visits complete vs
Remaining context_validated vs = Visits planned vs × Visits running vs × Visits complete vs
Remaining planned vs = Visits running vs × Visits complete vs
Remaining running vs = Visits complete vs
Remaining blocked vs = Visits running vs × Visits complete vs
Remaining partial vs = Visits running vs × Visits complete vs
Remaining complete vs = Visits attested vs
Remaining attested vs = Unit

Remaining-nil : (s : State) → s ≡ attested → Remaining s []
Remaining-nil attested e = tt
Remaining-nil _ e = cc

ruleset visits = (Visits.first, Visits.later)

Walk-Remaining : {s u : State} {vs : List State} → Walk s vs u → u ≡ attested → Remaining s vs
Walk-Remaining (here {s}) e = Remaining-nil s e
Walk-Remaining (onward validate w) e =
    let (p, r, c) = Walk-Remaining w e in (first, later p, later r, later c)
Walk-Remaining (onward plan w) e = let (r, c) = Walk-Remaining w e in (first, later r, later c)
Walk-Remaining (onward run w) e = (first, later (Walk-Remaining w e))
Walk-Remaining (onward block w) e = later (Walk-Remaining w e).1
Walk-Remaining (onward pause w) e = later (Walk-Remaining w e).1
Walk-Remaining (onward finish w) e = first
Walk-Remaining (onward unblock w) e = (first, later (Walk-Remaining w e))
Walk-Remaining (onward resume w) e = (first, later (Walk-Remaining w e))
Walk-Remaining (onward attest w) e = first

-- No audit is attested without having been validated, planned, run and completed.
pub attested_walk :
    {vs : List State}
    → Walk created vs attested
    → Visits context_validated vs × Visits planned vs × Visits running vs × Visits complete vs
attested_walk w = Walk-Remaining w refl
