-- ===== src/Lifecycle/RoundTrip.antt =====
-- A stored lifecycle document replays to the lifecycle that was stored.
use mathlib.Core.List.{map-append}
use native.Mathlib.Nat.{add-zero}
use vheatm.Prelude.{
  ℕ, suc, ◌+◌, String, ◌≡◌, refl, ◌∙◌, false, Option, List, [], ◌∷◌, ◌++◌, map, ok, ok_steps,
  >>=-ok, arith, length, length-map, is_blank,
}
use vheatm.Json.{Json, Fields, obj}
use vheatm.Lifecycle.{
  created, state_of, Runtime, AuditLifecycle, create, transition, to_document, replay_event,
  replay_events, from_document,
}
use vheatm.Lifecycle.Replay.{
  transition_parts, replay_event-transition, str_eq_refl, to_list-from_list,
}

-- The lifecycles that a program can build: created, then moved by successful transitions.
pub data Reached (R : Runtime) : AuditLifecycle → Type 0 where
  started : (id : String) {lc : AuditLifecycle} → create R id "created" ≡ ok lc → Reached R lc
  moved :
      {lc lc' : AuditLifecycle} {event : Fields}
      → Reached R lc
      → (target actor reason : String) (at : Option String) (now : String) (refs : List String)
      → transition R lc target actor reason at now refs ≡ ok (lc', event)
      → Reached R lc'

abbrev pub fresh : String → AuditLifecycle
fresh id = record { audit_id = id; state = created; events = [] }

module _ (R : Runtime) where
  create-eq_fresh :
      (id : String) {lc : AuditLifecycle}
      → create R id "created" ≡ ok lc
      → (lc ≡ fresh id) × (is_blank id ≡ false)
  unfolding create state_of
  create-eq_fresh id h = ground arith

  replay_events-snoc :
      (i : ℕ) (vs : List Json) (raw : Fields) (start : AuditLifecycle) {lc : AuditLifecycle}
      → replay_events R i vs start ≡ ok lc
      → replay_events R i (vs ++ obj raw ∷ []) start ≡ replay_event R (i + length vs) raw lc
  unfolding replay_events
  replay_events-snoc i [] raw start h = rw (>>=-ok (replay_event R i raw start)) (cc (add-zero i))
  replay_events-snoc i (obj v ∷ vs) raw start h =
      let (next, first, rest) =
        ok_steps (replay_event R i v start) (replay_events R (i + 1) vs) h in
      let shift : i + suc (length vs) ≡ i + 1 + length vs = omega arith in
      rw (first, shift) (replay_events-snoc (i + 1) vs raw next rest)
  replay_events-snoc i (_ ∷ vs) raw start h = cc

  replay_events-extended :
      (lc : AuditLifecycle) (event : Fields) {next : AuditLifecycle}
      → replay_events R 1 (map obj lc.events) (fresh lc.audit_id) ≡ ok lc
      → replay_event R (length lc.events + 1) event lc ≡ ok next
      → replay_events R 1 (map obj (lc.events ++ event ∷ [])) (fresh lc.audit_id) ≡ ok next
  replay_events-extended lc event replayed last =
      let place : 1 + length (map obj lc.events) ≡ length lc.events + 1 =
        omega (arith, length-map obj lc.events) in
      rw map-append (
        replay_events-snoc 1 (map obj lc.events) event (fresh lc.audit_id) replayed ∙ rw place last)

  -- The log of a lifecycle that was reached replays to that lifecycle.
  replay_events-Reached :
      {lc : AuditLifecycle}
      → Reached R lc
      → (replay_events R 1 (map obj lc.events) (fresh lc.audit_id) ≡ ok lc)
        × (is_blank lc.audit_id ≡ false)
  unfolding replay_events
  replay_events-Reached (started id h) = let (e, named) = create-eq_fresh id h in rw e (refl, named)
  replay_events-Reached (moved {lc} {lc'} {event} r target actor reason at now refs h) =
      let (replayed, named) = replay_events-Reached r in
      let (_, _, _, _, _, logged, kept) = transition_parts R lc target actor reason at now refs h in
      let event_replayed = replay_event-transition R lc target actor reason at now refs h in
      simp (logged, kept) (replay_events-extended lc event replayed event_replayed, named)

  -- A stored lifecycle loads as the lifecycle that was stored.
  pub from_document-to_document :
      (lc : AuditLifecycle) → Reached R lc → from_document R (to_document R lc) ≡ ok lc
  unfolding from_document to_document create state_of
  from_document-to_document lc r =
      let (replayed, named) = replay_events-Reached r in
      simp (str_eq_refl, named, to_list-from_list, replayed)
