-- ===== src/Provenance.antt =====
-- src/vheatm_control/provenance.py: the registry of sources, validation receipts and claims, each under
-- the id that its content has, and the journal of the additions. `Identity` has the content ids,
-- `Lineage` the walk along the lineage of a claim, `Registry` the additions and the journal, `Journal`
-- the check of a journal, `Load` the loading of a document.
pub mod Identity
pub mod Lineage
pub mod Registry
pub mod Consistent
pub mod Preserved
pub mod Chain
pub mod Ends
pub mod Journal
pub mod Load
pub mod Loaded
pub mod Scenarios
use vheatm.Prelude.{
  ℕ, String, Bool, true, false, not, ◌&&◌, ◌||◌, Option, none, some, List, [], ◌∷◌, map, ◌==◌,
  Outcome, ok, raised, ◌>>=◌, characters, leb, sort_unique, if◌then◌else◌,
}
use vheatm.Json.{Json, Fields, Python, str, arr, obj, get, keys, to_list, to_str}

-- What the registry takes from Python: `json.dumps` with sorted keys, `hashlib.sha256` in hexadecimal,
-- `str.upper` and `str.lower`, `datetime.fromisoformat` as the question whether the time has a
-- timezone, with nothing for a ValueError, and the time of the clock.
pub record Services : Type 0 where
  pub python : Python
  pub dumps : Json → String
  pub sha256 : String → String
  pub upper : String → String
  pub lower : String → String
  pub has_timezone : String → Option Bool
  pub now : String

pub data ProvenanceError : Type 0 where
  bad_digest : ProvenanceError
  digest_not_object : ProvenanceError
  wrong_algorithm : ProvenanceError
  empty_locator : ProvenanceError
  untrusted_not_tainted : ProvenanceError
  trace_not_array : ProvenanceError
  trace_repeats : ProvenanceError
  trace_empty : ProvenanceError
  bad_gate_ids : ProvenanceError
  empty_text : ProvenanceError
  receipt_without_sources : ProvenanceError
  receipt_without_validator : ProvenanceError
  bad_result : ProvenanceError
  bad_input_digest : ProvenanceError
  unknown_with_confidence : ProvenanceError
  bad_confidence : ProvenanceError
  verified_without_sources : ProvenanceError
  unknown_sources : ProvenanceError
  unknown_receipts : ProvenanceError
  unknown_superseded : ProvenanceError
  unknown_lineage : ProvenanceError
  own_lineage : ProvenanceError
  lineage_cycle : ProvenanceError
  id_mismatch : ProvenanceError
  mutation : ProvenanceError
  empty_actor : ProvenanceError
  bad_event : ProvenanceError
  journal_incomplete : ProvenanceError
  unsupported_schema : ProvenanceError
  journal_not_array : ProvenanceError
  root_mismatch : ProvenanceError
  -- a TypeError
  not_iterable : ProvenanceError
  not_hashable : ProvenanceError
  -- an AttributeError, or what `dict` raises on a value that is no dictionary
  not_object : ProvenanceError
  out_of_fuel : ProvenanceError

-- `value or other`, for texts.
abbrev pub or_else : String → String → String
or_else s t = if s == "" then t else s

-- `for value in d.get(k, [])`
abbrev pub iterated : Option Json → Outcome ProvenanceError (List Json)
iterated none = ok []
iterated (some (arr vs)) = ok (to_list vs)
iterated (some (str s)) = ok (map str (characters s))
iterated (some (obj d)) = ok (map str (keys d))
iterated (some v) = raised not_iterable

-- `sorted(set(str(value) for value in d.get(k, [])))`
unfoldable pub str_set : Python → String → Fields → Outcome ProvenanceError (List String)
str_set P k d = iterated (get k d) >>= λ vs. ok (sort_unique (map (to_str P) vs))

abbrev pub is_nil {ℓ} : {A : Type ℓ} → List A → Bool
is_nil [] = true
is_nil (x ∷ xs) = false
