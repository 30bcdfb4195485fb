-- ===== src/Lifecycle/Scenarios.antt =====
-- One audit, from its creation to its attestation, and witnesses of the lifecycle's theorems.
use vheatm.Prelude.{
  map, is_blank, sort_unique, ◌≡◌, refl, true, false, none, some, List, [], ◌∷◌, Outcome, ok,
  raised,
}
use vheatm.Json.{Fields, Python, get, str, obj}
use vheatm.Lifecycle.{
  event_list, to_document, from_document, state_of, permits, validate_time, State, created,
  context_validated, planned, running, complete, attested, state_name, LifecycleError,
  invalid_transition, Runtime, AuditLifecycle, create, transition,
}
use vheatm.Lifecycle.Edges.{Walk, Visits}
use vheatm.Lifecycle.RoundTrip.{Reached, started, moved, from_document-to_document}
use vheatm.Lifecycle.Walks.{Logged, stored, from_document-Walk}

abbrev plain : Python
plain = record {
  repr = λ _. "?";
  float_eq = λ _ _. false;
  float_lt = λ _ _. false;
  float_le = λ _ _. false;
}

abbrev runtime : Runtime
runtime = record {
  python = plain;
  dumps = λ _. "{}";
  sha256 = λ s. s;
  parse_time = λ _. some true;
  sort_mixed = λ _. none;
}

abbrev opened : AuditLifecycle
opened = record { audit_id = "AUD-1"; state = created; events = [] }

opened-Reached : Reached runtime opened
unfolding create is_blank state_of
opened-Reached = started "AUD-1" refl

abbrev step : State → AuditLifecycle → Outcome LifecycleError (AuditLifecycle × Fields)
step to lc =
    transition runtime lc (state_name to) "auditor" "next" none "2026-01-01T00:00:00Z"
      ("b" ∷ "a" ∷ [])

abbrev next_or : AuditLifecycle → Outcome LifecycleError (AuditLifecycle × Fields) → AuditLifecycle
next_or lc (ok (lc', e)) = lc'
next_or lc (raised e) = lc

abbrev follow : List State → AuditLifecycle → AuditLifecycle
follow [] lc = lc
follow (to ∷ rest) lc = follow rest (next_or lc (step to lc))

abbrev to_attested : List State
to_attested = context_validated ∷ planned ∷ running ∷ complete ∷ attested ∷ []

attested_at_end : (follow to_attested opened).state ≡ attested
unfolding transition state_of permits is_blank validate_time
attested_at_end = refl

skips_refused : step running opened ≡ raised (invalid_transition created "running")
unfolding transition state_of permits is_blank validate_time
skips_refused = refl

abbrev validated : AuditLifecycle
validated = follow (context_validated ∷ []) opened

validated-Reached : Reached runtime validated
unfolding transition state_of permits is_blank validate_time sort_unique
validated-Reached =
    moved opened-Reached "context_validated" "auditor" "next" none "2026-01-01T00:00:00Z"
      ("b" ∷ "a" ∷ []) refl

from_document-to_document_example :
    from_document runtime (to_document runtime validated) ≡ ok validated
from_document-to_document_example = from_document-to_document runtime validated validated-Reached

from_document-Walk_example :
    (us : List State) × (raws : List Fields) × Walk created us context_validated
    × (event_list runtime (get "events" (to_document runtime validated)) ≡ ok (map obj raws))
    × (validated.events ≡ map (stored runtime) raws)
    × Logged runtime created us validated.events
    × (get "state" (to_document runtime validated) ≡ some (str (state_name context_validated)))
    × (context_validated ≡ attested
        → Visits context_validated us × Visits planned us × Visits running us × Visits complete us)
unfolding transition state_of permits is_blank validate_time
from_document-Walk_example =
    from_document-Walk runtime (to_document runtime validated) validated
      from_document-to_document_example
