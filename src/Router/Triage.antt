-- ===== src/Router/Triage.antt =====
-- Which modules `_route_modules_unchecked` selects by the states of their gates.
use vheatm.Prelude.{
  some_inj, ◌≡◌, refl, sym, subst, String, true, Bool-cases, inl, inr, ◌⊎◌, some, List, [], ◌∷◌,
  arith, ◌==◌, has,
}
use vheatm.Router.{LoadedModule, find_module}
use vheatm.Router.Select.{GateStates, Selection, should_select, triage, triage_all}
use vheatm.Router.Closure.{has-snoc, has-front, snoc-cases}

triage-keeps :
    (states : GateStates) (m : LoadedModule) (s : Selection) (k : String)
    → has s.selected k ≡ true
    → has (triage states m s).selected k ≡ true
unfolding triage
triage-keeps states m s k h = ground (arith, has-front s.selected m.id k h)

triage-selects :
    (states : GateStates) (m : LoadedModule) (s : Selection)
    → should_select states m ≡ true
    → has (triage states m s).selected m.id ≡ true
unfolding triage
triage-selects states m s h = rw h (has-snoc s.selected m.id)

triage_all-keeps :
    (states : GateStates) (ms : List LoadedModule) (s : Selection) (k : String)
    → has s.selected k ≡ true
    → has (triage_all states ms s).selected k ≡ true
unfolding triage_all
triage_all-keeps states [] s k h = h
triage_all-keeps states (m ∷ ms) s k h =
    triage_all-keeps states ms (triage states m s) k (triage-keeps states m s k h)

pub triage_all-selects :
    (states : GateStates) (ms : List LoadedModule) (s : Selection) (m : LoadedModule)
    → find_module m.id ms ≡ some m
    → should_select states m ≡ true
    → has (triage_all states ms s).selected m.id ≡ true
unfolding triage_all
triage_all-selects states [] s m found chosen = cc
triage_all-selects states (n ∷ ms) s m found chosen = elim (Bool-cases (n.id == m.id)) [
  | inl same ↦
      let e : n ≡ m = some_inj (rw same at found) in
      triage_all-keeps states ms (triage states n s) m.id (
        subst (λ z. has (triage states z s).selected m.id ≡ true) (sym e)
          (triage-selects states m s chosen))
  | inr other ↦ triage_all-selects states ms (triage states n s) m (rw other at found) chosen
]

-- Being one of the modules.
abbrev pub Listed : LoadedModule → List LoadedModule → Type 0
Listed m [] = ⊥
Listed m (n ∷ ms) = (m ≡ n) ⊎ Listed m ms

triage-cases :
    (states : GateStates) (m : LoadedModule) (s : Selection) (k : String)
    → has (triage states m s).selected k ≡ true
    → (has s.selected k ≡ true) ⊎ ((should_select states m ≡ true) × (m.id ≡ k))
unfolding triage
triage-cases states m s k h = ground (arith, snoc-cases s.selected m.id k)

-- What the triage selects was selected before or is a module that the states of its gates select.
pub triage_all-cases :
    (states : GateStates) (ms : List LoadedModule) (s : Selection) (k : String)
    → has (triage_all states ms s).selected k ≡ true
    → (has s.selected k ≡ true)
      ⊎ ((m : LoadedModule) × Listed m ms × (should_select states m ≡ true) × (m.id ≡ k))
unfolding triage_all
triage_all-cases states [] s k h = inl h
triage_all-cases states (m ∷ ms) s k h = elim (triage_all-cases states ms (triage states m s) k h) [
  | inr (n, listed, chosen, same) ↦ inr (n, inr listed, chosen, same)
  | inl there ↦ elim (triage-cases states m s k there) [
    | inl before ↦ inl before
    | inr (chosen, same) ↦ inr (m, inl refl, chosen, same)
  ]
]
