-- ===== src/Provenance/Journal.antt =====
-- `_validate_journal`: the check of a journal that is loaded.
use vheatm.Prelude.{
  String, Bool, false, not, ◌&&◌, Option, none, some, List, [], ◌∷◌, ◌++◌, ◌==◌, has, all, is_blank,
  replace_zone, Outcome, ok, ◌>>=◌, ◌>>◌, guard, if◌then◌else◌,
}
use vheatm.Json.{Fields, str, get, field_is, str_field}
use vheatm.Provenance.{Services, ProvenanceError, bad_event, journal_incomplete}
use vheatm.Provenance.Registry.{
  Records, Registry, ids_of, expected_journal_event_id, expected_event_hash,
}

-- `records.get(record_type, {})`
abbrev pub records_named : Registry → String → Records
records_named r name =
    if name == "source"
    then r.sources
    else if name == "claim"
    then r.claims
    else if name == "validation_receipt"
    then r.validation_receipts
    else []

-- The ids of the records of all three kinds.
abbrev pub known_ids : Registry → List String
known_ids r = ids_of r.sources ++ ids_of r.claims ++ ids_of r.validation_receipts

-- A timezone is there, in a time that Python reads.
abbrev has_zone : Option Bool → Bool
has_zone none = false
has_zone (some zoned) = zoned

module _ (S : Services) where
  abbrev pub record_id_of : Fields → String
  record_id_of event = str_field S.python "record_id" event

  -- The checks of one event.
  unfoldable pub check_event :
      Registry → String → List String → List String → Fields → Outcome ProvenanceError (Unit {0})
  unfolding is_blank replace_zone expected_journal_event_id expected_event_hash
  check_event r previous_hash seen referenced event = do
    guard (field_is S.python (get "action" event) (str "add")) bad_event
    guard (not (is_blank (str_field S.python "actor" event))) bad_event
    guard (has_zone (S.has_timezone (replace_zone (str_field S.python "occurred_at" event))))
        bad_event
    guard
        (not (has seen (str_field S.python "id" event))
          && str_field S.python "id" event == expected_journal_event_id S event)
        bad_event
    guard (field_is S.python (get "previous_hash" event) (str previous_hash)) bad_event
    guard (field_is S.python (get "event_hash" event) (str (expected_event_hash S event))) bad_event
    guard
        (has (ids_of (records_named r (str_field S.python "record_type" event)))
          (record_id_of event))
        bad_event
    guard (not (has referenced (record_id_of event))) bad_event

  -- The loop over the events, which gives the records that they refer to.
  unfoldable pub check_events :
      Registry
      → String
      → List String
      → List String
      → List Fields
      → Outcome ProvenanceError (List String)
  unfolding check_event
  check_events r previous_hash seen referenced [] = ok referenced
  check_events r previous_hash seen referenced (event ∷ events) = do
    check_event r previous_hash seen referenced event
    check_events r (str_field S.python "event_hash" event) (str_field S.python "id" event ∷ seen)
        (record_id_of event ∷ referenced) events

  -- `_validate_journal`
  unfoldable pub validate_journal : Registry → Outcome ProvenanceError (Unit {0})
  unfolding check_events
  validate_journal r = do
    referenced ← check_events r "" [] [] r.journal
    guard (all (has (known_ids r)) referenced && all (has referenced) (known_ids r))
        journal_incomplete
