-- ===== src/Lifecycle/Walks.antt =====
-- A document that `from_document` loads describes a walk along the transition diagram.
use mathlib.Core.List.{append-nil, append_assoc}
use vheatm.Prelude.{
  not, ◌||◌, ◌==◌, ok_inj, raised, Outcome, ◌>>◌, guard, pos, ℕ, ◌+◌, String, ◌≡◌, refl, sym, ap,
  ◌∙◌, subst, true, Option, some, List, [], ◌∷◌, ◌++◌, map, ok, ok_steps, arith, is_blank,
}
use vheatm.Json.{Json, int, Fields, arr, field, obj, str, str_field, get, remove, to_list, field_is}
use vheatm.Json.Equality.{field_is-str}
use vheatm.Lifecycle.{
  validate_time, checked_refs, event_id, event_no_actor, id_mismatch, LifecycleError, State,
  state_name, event_list, created, context_validated, planned, running, complete, attested,
  state_of, permits, Runtime, permitted_target, sequence_gap, audit_id_mismatch,
  from_state_mismatch, AuditLifecycle, create, replay_event, replay_events, from_document,
}
use vheatm.Lifecycle.Edges.{Walk, Visits, here, attested_walk, permits_iff, state_of-eq_some}
use vheatm.Lifecycle.RoundTrip.{fresh}

abbrev listed : Option Json → List Json
listed (some (arr vs)) = to_list vs
listed _ = []

last-ok :
    (a b c d : Outcome LifecycleError (Unit {0})) (s : AuditLifecycle) {t : AuditLifecycle}
    → a >> (b >> (c >> (d >> ok s))) ≡ ok t
    → s ≡ t
last-ok (ok _) (ok _) (ok _) (ok _) s h = ok_inj h
last-ok (raised e) b c d s h = cc
last-ok (ok _) (raised e) c d s h = cc
last-ok (ok _) (ok _) (raised e) d s h = cc
last-ok (ok _) (ok _) (ok _) (raised e) s h = cc

module _ (R : Runtime) where
  -- The event that the replay of an event of a document logs.
  abbrev pub stored : Fields → Fields
  stored raw = field "id" (str (str_field R.python "id" raw)) (remove "id" raw)

  -- The events of a log name, one by one, the state before (`from`) and after (`to`) each step.
  abbrev pub Logged : State → List State → List Fields → Type 0
  Logged s [] [] = Unit
  Logged s (t ∷ us) (e ∷ es) =
      (get "from" e ≡ some (str (state_name s)))
      × (str_field R.python "to" e ≡ state_name t)
      × Logged t us es
  Logged s _ _ = ⊥

  permitted_target-ok :
      (from : State) (target : String) {to : State}
      → permitted_target R from target ≡ ok to
      → state_of target ≡ some to
  permitted_target-ok from target h = ground arith

  replay_event-target :
      (i : ℕ) (raw : Fields) (s : AuditLifecycle) {t : AuditLifecycle}
      → replay_event R i raw s ≡ ok t
      → state_of (str_field R.python "to" (remove "id" raw)) ≡ some t.state
  unfolding replay_event
  replay_event-target i raw s h =
      let event = remove "id" raw in
      let text : String → String = λ k. str_field R.python k event in
      let same : String → Json → LifecycleError → Outcome LifecycleError (Unit {0}) =
        λ k v e. guard (field_is R.python (get k event) v) e in
      let (_, _, h1) = ok_steps (same "sequence" (int (pos i)) (sequence_gap i)) _ h in
      let (_, _, h2) = ok_steps (same "audit_id" (str s.audit_id) (audit_id_mismatch i)) _ h1 in
      let (_, _, h3) =
        ok_steps (same "from" (str (state_name s.state)) (from_state_mismatch i)) _ h2 in
      let (to, target, h4) = ok_steps (permitted_target R s.state (text "to")) _ h3 in
      let reached =
        last-ok
          (guard (not (is_blank (text "actor") || is_blank (text "reason"))) (event_no_actor i))
          (validate_time R (text "occurred_at")) (checked_refs R i (get "evidence_refs" event))
          (guard (str_field R.python "id" raw == event_id R event) (id_mismatch i))
          (record s { events = s.events ++ stored raw ∷ []; state = to }) h4 in
      permitted_target-ok s.state (text "to") target
      ∙ ap (λ (u : AuditLifecycle). some u.state) reached

  replay_event_step :
      (i : ℕ) (raw : Fields) (s : AuditLifecycle) {t : AuditLifecycle}
      → replay_event R i raw s ≡ ok t
      → (permits s.state t.state ≡ true)
        × (t.events ≡ s.events ++ stored raw ∷ [])
        × (field_is R.python (get "from" (remove "id" raw)) (str (state_name s.state)) ≡ true)
        × (state_of (str_field R.python "to" (remove "id" raw)) ≡ some t.state)
  unfolding replay_event
  replay_event_step i raw s h =
      (ground arith, ground arith, ground arith, replay_event-target i raw s h)

  -- A replay walks along the diagram, one step for each event that it adds to the log.
  replay_events-Walk :
      (i : ℕ) (vs : List Json) (s : AuditLifecycle) {t : AuditLifecycle}
      → replay_events R i vs s ≡ ok t
      → (us : List State) × (raws : List Fields) × Walk s.state us t.state
        × Logged s.state us (map stored raws)
        × (t.events ≡ s.events ++ map stored raws)
        × (vs ≡ map obj raws)
  unfolding replay_events
  replay_events-Walk i [] s {t} h =
      let same : s ≡ t = ground arith in
      (
        [],
        [],
        subst (λ (u : AuditLifecycle). Walk s.state [] u.state) same here,
        tt,
        ap (λ (u : AuditLifecycle). u.events) (sym same) ∙ sym (append-nil s.events),
        refl,
      )
  replay_events-Walk i (obj v ∷ vs) s {t} h =
      let (next, first, rest) = ok_steps (replay_event R i v s) (replay_events R (i + 1) vs) h in
      let (allowed, logged, from, to) = replay_event_step i v s first in
      let (us, raws, walk, steps, events, listed) = replay_events-Walk (i + 1) vs next rest in
      (
        next.state ∷ us,
        v ∷ raws,
        Walk.onward ((permits_iff _ _).0 allowed) walk,
        (field_is-str R.python _ _ from, sym (state_of-eq_some _ next.state to), steps),
        events
            ∙ ap (λ es. es ++ map stored raws) logged
            ∙ append_assoc s.events (stored v ∷ []) (map stored raws),
        ap (λ ws. obj v ∷ ws) listed,
      )
  replay_events-Walk i (_ ∷ vs) s h = cc

  loaded_parts :
      (document : Fields) {lc : AuditLifecycle}
      → from_document R document ≡ ok lc
      → (id : String) × (vs : List Json) × (replay_events R 1 vs (fresh id) ≡ ok lc)
        × (event_list R (get "events" document) ≡ ok vs)
        × (field_is R.python (get "state" document) (str (state_name lc.state)) ≡ true)
  unfolding from_document create state_of
  loaded_parts document h = (
    str_field R.python "audit_id" document,
    listed (get "events" document),
    ground arith,
    ground arith,
    ground arith,
  )

  -- A document that loads describes a walk from `created` to the state that it declares: its events
  -- are the log of the loaded lifecycle, up to the place of the id, and name, one by one, the state
  -- before and after each step. If the declared state is `attested`, the walk was validated, planned,
  -- run and completed.
  pub from_document-Walk :
      (document : Fields) (lc : AuditLifecycle)
      → from_document R document ≡ ok lc
      → (us : List State) × (raws : List Fields) × Walk created us lc.state
        × (event_list R (get "events" document) ≡ ok (map obj raws))
        × (lc.events ≡ map stored raws)
        × Logged created us lc.events
        × (get "state" document ≡ some (str (state_name lc.state)))
        × (lc.state ≡ attested
            → Visits context_validated us
              × Visits planned us
              × Visits running us
              × Visits complete us)
  from_document-Walk document lc h =
      let (id, vs, replayed, given, declared) = loaded_parts document h in
      let (us, raws, walk, steps, events, same) = replay_events-Walk 1 vs (fresh id) replayed in
      (
        us,
        raws,
        walk,
        given ∙ ap ok same,
        events,
        subst (Logged created us) (sym events) steps,
        field_is-str R.python _ _ declared,
        λ e. attested_walk (subst (Walk created us) e walk),
      )
