-- ===== src/Provenance/Loaded.antt =====
-- A registry that is loaded is consistent, and its journal has one event for each of its records.
use vheatm.Prelude.{
  ◌≡◌, refl, sym, ap, ◌∙◌, subst, String, Bool, true, false, ◌&&◌, ◌||◌, Bool-cases, none, List, [],
  ◌∷◌, ◌==◌, arith, inl, inr, has, has-head, all, ok, ok_steps, ok_inj, guard,
}
use vheatm.Json.{Json, Fields, str, obj, get, field_is, str_field}
use vheatm.Router.Missing.{has-cons}
use vheatm.Router.Order.{Distinct}
use vheatm.Provenance.{Services, iterated, journal_incomplete, unsupported_schema, root_mismatch}
use vheatm.Provenance.Registry.{
  Registry, Added, empty_registry, add_source, add_validation_receipt, add_claim,
}
use vheatm.Provenance.Journal.{known_ids, record_id_of, check_event, check_events, validate_journal}
use vheatm.Provenance.Load.{
  read_all, journal_of, load_records, load_document, root_hash, root_agrees,
}
use vheatm.Provenance.Consistent.{IsConsistent, IsClaim-Grows}
use vheatm.Provenance.Preserved.{
  guarded, add_source-IsConsistent, add_validation_receipt-IsConsistent, add_claim-IsConsistent,
}

all-has :
    (xs ys : List String) (k : String) → all (has ys) xs ≡ true → has xs k ≡ true → has ys k ≡ true
all-has [] ys k h m = cc
all-has (x ∷ xs) ys k h m = elim (has-cons x k xs m) [
  | inl same ↦ subst (λ z. has ys z ≡ true) same (ground arith)
  | inr later ↦ all-has xs ys k (ground arith) later
]

both : {a b : Bool} → a && b ≡ true → (a ≡ true) × (b ≡ true)
both {a} {b} h = ground arith

swapped : (a b c : Bool) → (b || (a || c)) ≡ (a || b) || c
swapped a b c = ground arith

same_truth : (a b : Bool) → (a ≡ true → b ≡ true) → (b ≡ true → a ≡ true) → a ≡ b
same_truth true b f g = sym (f refl)
same_truth false b f g = ground arith

no_more : (a : Bool) → a || false ≡ true → a ≡ true
no_more a h = ground arith

not_before : (x k : String) (xs : List String) → has (x ∷ xs) k ≡ false → has xs k ≡ false
not_before x k xs h = ground arith

module _ (S : Services) where
  -- The ids that the events of a journal refer to.
  abbrev pub referred : List Fields → List String
  referred [] = []
  referred (event ∷ events) = record_id_of S event ∷ referred events

  check_event-fresh :
      (r : Registry) (previous : String) (seen before : List String) (event : Fields) {u : Unit {0}}
      → check_event S r previous seen before event ≡ ok u
      → has before (record_id_of S event) ≡ false
  unfolding check_event
  check_event-fresh r previous seen before event h = ground arith

  -- The events refer to different records, none of which was referred to before.
  check_events-Distinct :
      (r : Registry) (previous : String) (seen before : List String) (events : List Fields)
      (after : List String)
      → check_events S r previous seen before events ≡ ok after
      → Distinct (referred events)
        × ((k : String) → has (referred events) k ≡ true → has before k ≡ false)
        × ((k : String) → has after k ≡ (has (referred events) k || has before k))
  unfolding check_events
  check_events-Distinct r previous seen before [] after h =
      (tt, λ k. cc, λ k. ap (λ z. has z k) (sym (ok_inj h)))
  check_events-Distinct r previous seen before (event ∷ events) after h =
      let id = record_id_of S event in
      let (u, checked, h1) = ok_steps (check_event S r previous seen before event) _ h in
      let (distinct, fresh, all_in) =
        check_events-Distinct r (str_field S.python "event_hash" event)
          (str_field S.python "id" event ∷ seen) (id ∷ before) events after h1 in
      let first = check_event-fresh r previous seen before event checked in
      let other : has (referred events) id ≡ false = elim (Bool-cases (has (referred events) id)) [
        | inr absent ↦ absent
        | inl again ↦ cc (sym (has-head id before) ∙ fresh id again)
      ] in
      (
        (other, distinct),
        λ k m. elim (has-cons id k (referred events) m) [
          | inl e ↦ subst (λ z. has before z ≡ false) e first
          | inr later ↦ not_before id k before (fresh k later)
        ],
        λ k. all_in k ∙ swapped (id == k) (has (referred events) k) (has before k),
      )

  -- Each record of a registry whose journal is valid is referred to by one event, and nothing else is.
  abbrev pub IsJournaled : Registry → Type 0
  IsJournaled r =
      Distinct (referred r.journal)
      × ((k : String) → has (referred r.journal) k ≡ has (known_ids r) k)

  validate_journal-IsJournaled :
      (r : Registry) {u : Unit {0}} → validate_journal S r ≡ ok u → IsJournaled r
  unfolding validate_journal
  validate_journal-IsJournaled r h =
      let (all_referred, e, h1) = ok_steps (check_events S r "" [] [] r.journal) _ h in
      let (distinct, fresh, all_in) = check_events-Distinct r "" [] [] r.journal all_referred e in
      let (known, covered) = both (guarded _ journal_incomplete h1) in
      (
        distinct,
        λ k.
            same_truth (has (referred r.journal) k) (has (known_ids r) k)
              (λ m. all-has all_referred (known_ids r) k known (all_in k ∙ rw m refl))
              (λ m.
                no_more (has (referred r.journal) k)
                  (sym (all_in k) ∙ all-has (known_ids r) all_referred k covered m)),
      )

  read_all-IsConsistent :
      (add : Registry → Fields → Added)
      → ((r : Registry) (d : Fields) → IsConsistent S r → IsConsistent S (add r d).1)
      → (vs : List Json) (r after : Registry) → read_all add vs r ≡ ok after
      → IsConsistent S r
      → IsConsistent S after
  unfolding read_all
  read_all-IsConsistent add keep [] r after h c = subst (IsConsistent S) (ok_inj h) c
  read_all-IsConsistent add keep (obj d ∷ vs) r after h c =
      let (u, e, h1) = ok_steps (add r d).0 _ h in
      read_all-IsConsistent add keep vs (add r d).1 after h1 (keep r d c)
  read_all-IsConsistent add keep (v ∷ vs) r after h c = cc h

  empty_holds : (r : Registry) → r ≡ record empty_registry { loading = true } → IsConsistent S r
  empty_holds r e = subst (IsConsistent S) (sym e) (record {
    sources_hold = λ id q h. cc;
    receipts_hold = λ id q h. cc;
    claims_hold = λ id q h. cc;
  })

  load_records-IsConsistent :
      (document : Fields) (r : Registry) → load_records S document ≡ ok r → IsConsistent S r
  unfolding load_records
  load_records-IsConsistent document r h =
      let (sources, e1, h1) = ok_steps (iterated (get "sources" document)) _ h in
      let (r1, e2, h2) =
        ok_steps
          (read_all (λ r d. add_source S r d "system" none) sources
            (record empty_registry { loading = true }))
          _ h1 in
      let (receipts, e3, h3) = ok_steps (iterated (get "validation_receipts" document)) _ h2 in
      let (r2, e4, h4) =
        ok_steps (read_all (λ r d. add_validation_receipt S r d "system" none) receipts r1) _ h3 in
      let (claims, e5, h5) = ok_steps (iterated (get "claims" document)) _ h4 in
      read_all-IsConsistent (λ r d. add_claim S r d "system" none)
        (λ r d c. add_claim-IsConsistent S r d "system" none c) claims r2 r h5
        (read_all-IsConsistent (λ r d. add_validation_receipt S r d "system" none)
          (λ r d c. add_validation_receipt-IsConsistent S r d "system" none c) receipts r1 r2 e4
          (read_all-IsConsistent (λ r d. add_source S r d "system" none)
            (λ r d c. add_source-IsConsistent S r d "system" none c) sources _ r1 e2
            (empty_holds _ refl)))

  -- A registry that is loaded from a document is consistent; the events of its journal refer to
  -- different records, and to each record of the registry and nothing else.
  pub load_document-IsConsistent :
      (document : Fields) (r : Registry)
      → load_document S document ≡ ok r
      → IsConsistent S r × IsJournaled r
  unfolding load_document
  load_document-IsConsistent document r h =
      let (u, e1, h1) =
        ok_steps
          (guard (field_is S.python (get "schema_version" document) (str "1.0.0"))
            unsupported_schema)
          _ h in
      let (r1, e2, h2) = ok_steps (load_records S document) _ h1 in
      let (journal, e3, h3) = ok_steps (journal_of S r1 (get "journal" document)) _ h2 in
      let loaded : Registry = record r1 { journal = journal; loading = false } in
      let (v, e4, h4) = ok_steps (validate_journal S loaded) _ h3 in
      let (w, e5, h5) =
        ok_steps
          (guard (root_agrees S (root_hash S loaded) (get "root_hash" document)) root_mismatch) _
          h4 in
      let c = load_records-IsConsistent document r1 e2 in
      subst (λ z. IsConsistent S z × IsJournaled z) (ok_inj h5)
        (
          record {
            sources_hold = c.sources_hold;
            receipts_hold = c.receipts_hold;
            claims_hold = λ id q m.
                IsClaim-Grows S r1 loaded id q (λ k n. n) (λ k n. n) (λ k n. n)
                  (c.claims_hold id q m);
          },
          validate_journal-IsJournaled loaded e4,
        )
