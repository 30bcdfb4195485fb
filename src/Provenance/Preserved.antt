-- ===== src/Provenance/Preserved.antt =====
-- Additions keep a registry consistent and only append to the journal.
use vheatm.Prelude.{
  ◌≡◌, refl, sym, ap, ◌∙◌, subst, String, Bool, true, false, not, ◌&&◌, ◌||◌, Bool-cases, Option,
  some, List, [], ◌∷◌, ◌++◌, ◌==◌, arith, inl, inr, has, all, lookup, Outcome, ok, raised, ok_steps,
  ok_inj, guard,
}
use mathlib.Core.List.{append-nil}
use vheatm.Json.{Fields, get}
use vheatm.Provenance.{
  Services, ProvenanceError, is_nil, verified_without_sources, unknown_sources, unknown_receipts,
  unknown_lineage, own_lineage,
}
use vheatm.Provenance.Identity.{
  expected_source_id, validate_source_trust_state, claim_identity, expected_claim_id,
  validation_receipt_identity, expected_validation_receipt_id,
}
use vheatm.Provenance.Registry.{
  Addition, source, receipt, claim, add, add_all, Records, Registry, Added, ids_of, put_record,
  all_known, known_id, insert, log, append_journal, make_journal_event, last_hash, checked_source,
  add_source, checked_receipt, add_validation_receipt, checked_claim, add_claim, check_confidence,
  check_superseded, validate_claim_lineage,
}
use vheatm.Provenance.Consistent.{
  Grows, put_record-Grows, put_record-found, insert-put_record, IsSource, IsReceipt, IsClaim,
  IsConsistent, IsReceipt-Grows, IsClaim-Grows,
}

pub guarded : {E : Type 0} (b : Bool) (e : E) {u : Unit {0}} → guard b e ≡ ok u → b ≡ true
guarded true e h = refl
guarded false e h = cc h

pub settles :
    {A : Type 0} (o : Outcome ProvenanceError A) (r : Registry) (f : A → Added)
    (P : Registry → Type 0)
    → P r
    → ((a : A) → o ≡ ok a → P (f a).1)
    → P (elim o as (λ _. Added) [ raised e ↦ (raised e, r) | ok a ↦ f a ]).1
settles (ok a) r f P kept done = done a refl
settles (raised e) r f P kept done = kept

negated : {b : Bool} → not b ≡ true → b ≡ false
negated {b} h = ground arith

module _ (S : Services) where
  -- The call may have appended to the journal, and nothing else.
  pub record Appends (r after : Registry) : Type 0 where
    pub sources : after.sources ≡ r.sources
    pub receipts : after.validation_receipts ≡ r.validation_receipts
    pub claims : after.claims ≡ r.claims
    pub appended : (events : List Fields) × (after.journal ≡ r.journal ++ events)

  unlogged : (r : Registry) → Appends r r
  unlogged r = record {
    sources = refl;
    receipts = refl;
    claims = refl;
    appended = ([], sym (append-nil r.journal));
  }

  append_journal-Appends :
      (record_type id actor at : String) (r : Registry)
      → Appends r (append_journal S record_type id actor at r).1
  unfolding append_journal
  append_journal-Appends record_type id actor at r =
      settles (make_journal_event S record_type id actor at (last_hash r.journal)) r _ (Appends r)
        (unlogged r)
        (λ event h. record {
          sources = refl;
          receipts = refl;
          claims = refl;
          appended = (event ∷ [], refl);
        })

  log-Appends :
      (existed : Bool) (record_type id actor at : String) (r : Registry)
      → Appends r (log S existed record_type id actor at r).1
  unfolding log
  log-Appends existed record_type id actor at r = elim (Bool-cases (existed || r.loading)) [
    | inl quiet ↦ rw quiet (unlogged r)
    | inr loud ↦ rw loud (append_journal-Appends record_type id actor at r)
  ]

  pub Appends-IsConsistent :
      (r after : Registry) → Appends r after → IsConsistent S r → IsConsistent S after
  Appends-IsConsistent r after a c = record {
    sources_hold = λ id q h. c.sources_hold id q (subst (λ z. lookup id z ≡ some q) a.sources h);
    receipts_hold = λ id q h.
        IsReceipt-Grows S r.sources after.sources id q
          (λ k m. subst (λ z. has (ids_of z) k ≡ true) (sym a.sources) m)
          (c.receipts_hold id q (subst (λ z. lookup id z ≡ some q) a.receipts h));
    claims_hold = λ id q h.
        IsClaim-Grows S r after id q (λ k m. subst (λ z. has (ids_of z) k ≡ true) (sym a.sources) m)
          (λ k m. subst (λ z. has (ids_of z) k ≡ true) (sym a.receipts) m)
          (λ k m. subst (λ z. has (ids_of z) k ≡ true) (sym a.claims) m)
          (c.claims_hold id q (subst (λ z. lookup id z ≡ some q) a.claims h));
  }

  same : (rs : Records) → Grows rs rs
  same rs k h = h

  source_put :
      (r : Registry) (q : Fields) (id : String)
      → IsSource S id q
      → IsConsistent S r
      → IsConsistent S (record r { sources = put_record id q r.sources })
  source_put r q id s c =
      let after : Registry = record r { sources = put_record id q r.sources } in
      record {
        sources_hold =
            λ j p h. put_record-found id q r.sources j p (IsSource S) s (c.sources_hold j p) h;
        receipts_hold = λ j p h.
            IsReceipt-Grows S r.sources after.sources j p (put_record-Grows id q r.sources)
              (c.receipts_hold j p h);
        claims_hold = λ j p h.
            IsClaim-Grows S r after j p (put_record-Grows id q r.sources)
              (same r.validation_receipts) (same r.claims) (c.claims_hold j p h);
      }

  receipt_put :
      (r : Registry) (q : Fields) (id : String)
      → IsReceipt S r.sources id q
      → IsConsistent S r
      → IsConsistent S (record r { validation_receipts = put_record id q r.validation_receipts })
  receipt_put r q id s c =
      let after : Registry = record r {
        validation_receipts = put_record id q r.validation_receipts;
      } in
      record {
        sources_hold = c.sources_hold;
        receipts_hold = λ j p h.
            put_record-found id q r.validation_receipts j p (IsReceipt S r.sources) s
              (c.receipts_hold j p) h;
        claims_hold = λ j p h.
            IsClaim-Grows S r after j p (same r.sources)
              (put_record-Grows id q r.validation_receipts) (same r.claims) (c.claims_hold j p h);
      }

  claim_put :
      (r : Registry) (q : Fields) (id : String)
      → IsClaim S r id q
      → IsConsistent S r
      → IsConsistent S (record r { claims = put_record id q r.claims })
  claim_put r q id s c =
      let after : Registry = record r { claims = put_record id q r.claims } in
      let wider : (j : String) (p : Fields) → IsClaim S r j p → IsClaim S after j p = λ j p.
        IsClaim-Grows S r after j p (same r.sources) (same r.validation_receipts)
          (put_record-Grows id q r.claims) in
      record {
        sources_hold = c.sources_hold;
        receipts_hold = c.receipts_hold;
        claims_hold = λ j p h.
            put_record-found id q r.claims j p (IsClaim S after) (wider id q s)
              (λ old. wider j p (c.claims_hold j p old)) h;
      }

  checked_source-IsSource :
      (r : Registry) (q : Fields) (id : String) (after : Records)
      → checked_source S r q ≡ ok (id, after)
      → IsSource S id q × (after ≡ put_record id q r.sources)
  unfolding checked_source
  checked_source-IsSource r q id after h =
      let (u, tainted, h1) = ok_steps (validate_source_trust_state S q) _ h in
      let (j, named, h2) = ok_steps (expected_source_id S q) _ h1 in
      let (rs, put, h3) = ok_steps (insert S r.sources q j) _ h2 in
      let e : j ≡ id = ap (λ p. p.0) (ok_inj h3) in
      (
        record { named = named ∙ ap ok e; tainted = tainted },
        sym (ap (λ p. p.1) (ok_inj h3))
            ∙ insert-put_record S r.sources q j rs put
            ∙ ap (λ z. put_record z q r.sources) e,
      )

  checked_receipt-IsReceipt :
      (r : Registry) (q : Fields) (id : String) (after : Records)
      → checked_receipt S r q ≡ ok (id, after)
      → IsReceipt S r.sources id q × (after ≡ put_record id q r.validation_receipts)
  unfolding checked_receipt
  checked_receipt-IsReceipt r q id after h =
      let (i, read, h1) = ok_steps (validation_receipt_identity S q) _ h in
      let (u, known, h2) =
        ok_steps (guard (all_known i.source_refs r.sources) unknown_sources) _ h1 in
      let (j, named, h3) = ok_steps (expected_validation_receipt_id S q) _ h2 in
      let (rs, put, h4) = ok_steps (insert S r.validation_receipts q j) _ h3 in
      let e : j ≡ id = ap (λ p. p.0) (ok_inj h4) in
      (
        record {
          identity = i;
          read = read;
          named = named ∙ ap ok e;
          sourced = guarded (all_known i.source_refs r.sources) unknown_sources known;
        },
        sym (ap (λ p. p.1) (ok_inj h4))
            ∙ insert-put_record S r.validation_receipts q j rs put
            ∙ ap (λ z. put_record z q r.validation_receipts) e,
      )

  validate_claim_lineage-known :
      (r : Registry) (id : String) (refs : List String) {u : Unit {0}}
      → validate_claim_lineage S r id refs ≡ ok u
      → (all (known_id r) refs ≡ true) × (has refs id ≡ false)
  unfolding validate_claim_lineage
  validate_claim_lineage-known r id refs h =
      let (u, known, h1) = ok_steps (guard (all (known_id r) refs) unknown_lineage) _ h in
      let (v, own, h2) = ok_steps (guard (not (has refs id)) own_lineage) _ h1 in
      (
        guarded (all (known_id r) refs) unknown_lineage known,
        negated (guarded (not (has refs id)) own_lineage own),
      )

  checked_claim-IsClaim :
      (r : Registry) (q : Fields) (id : String) (after : Records)
      → checked_claim S r q ≡ ok (id, after)
      → IsClaim S r id q × (after ≡ put_record id q r.claims)
  unfolding checked_claim
  checked_claim-IsClaim r q id after h =
      let (i, read, h1) = ok_steps (claim_identity S q) _ h in
      let (u1, e1, h2) =
        ok_steps (check_confidence S i.epistemic_status (get "confidence" q)) _ h1 in
      let (u2, e2, h3) =
        ok_steps
          (guard (not (i.epistemic_status == "verified" && is_nil i.source_refs))
            verified_without_sources)
          _ h2 in
      let (u3, e3, h4) =
        ok_steps (guard (all_known i.source_refs r.sources) unknown_sources) _ h3 in
      let (u4, e4, h5) = ok_steps (check_superseded S r.claims (get "supersedes" q)) _ h4 in
      let (u5, e5, h6) =
        ok_steps
          (guard (all_known i.validation_receipt_refs r.validation_receipts) unknown_receipts) _
          h5 in
      let (j, named, h7) = ok_steps (expected_claim_id S q) _ h6 in
      let (u6, e6, h8) = ok_steps (validate_claim_lineage S r j i.lineage_refs) _ h7 in
      let (rs, put, h9) = ok_steps (insert S r.claims q j) _ h8 in
      let e : j ≡ id = ap (λ p. p.0) (ok_inj h9) in
      let (descended, not_own) = validate_claim_lineage-known r j i.lineage_refs e6 in
      (
        record {
          identity = i;
          read = read;
          named = named ∙ ap ok e;
          verified = negated (guarded _ verified_without_sources e2);
          sourced = guarded (all_known i.source_refs r.sources) unknown_sources e3;
          validated =
              guarded (all_known i.validation_receipt_refs r.validation_receipts) unknown_receipts
                e5;
          descended = descended;
          not_own = subst (λ z. has i.lineage_refs z ≡ false) e not_own;
        },
        sym (ap (λ p. p.1) (ok_inj h9))
            ∙ insert-put_record S r.claims q j rs put
            ∙ ap (λ z. put_record z q r.claims) e,
      )

  pub add_source-IsConsistent :
      (r : Registry) (q : Fields) (actor : String) (at : Option String)
      → IsConsistent S r
      → IsConsistent S (add_source S r q actor at).1
  unfolding add_source
  add_source-IsConsistent r q actor at c =
      settles (checked_source S r q) r _ (IsConsistent S) c (λ found h.
        let (s, put) = checked_source-IsSource r q found.0 found.1 h in
        Appends-IsConsistent (record r { sources = found.1 }) _
          (log-Appends _ "source" found.0 actor _ _)
          (subst (λ z. IsConsistent S (record r { sources = z })) (sym put)
            (source_put r q found.0 s c)))

  pub add_validation_receipt-IsConsistent :
      (r : Registry) (q : Fields) (actor : String) (at : Option String)
      → IsConsistent S r
      → IsConsistent S (add_validation_receipt S r q actor at).1
  unfolding add_validation_receipt
  add_validation_receipt-IsConsistent r q actor at c =
      settles (checked_receipt S r q) r _ (IsConsistent S) c (λ found h.
        let (s, put) = checked_receipt-IsReceipt r q found.0 found.1 h in
        Appends-IsConsistent (record r { validation_receipts = found.1 }) _
          (log-Appends _ "validation_receipt" found.0 actor _ _)
          (subst (λ z. IsConsistent S (record r { validation_receipts = z })) (sym put)
            (receipt_put r q found.0 s c)))

  pub add_claim-IsConsistent :
      (r : Registry) (q : Fields) (actor : String) (at : Option String)
      → IsConsistent S r
      → IsConsistent S (add_claim S r q actor at).1
  unfolding add_claim
  add_claim-IsConsistent r q actor at c =
      settles (checked_claim S r q) r _ (IsConsistent S) c (λ found h.
        let (s, put) = checked_claim-IsClaim r q found.0 found.1 h in
        Appends-IsConsistent (record r { claims = found.1 }) _
          (log-Appends _ "claim" found.0 actor _ _)
          (subst (λ z. IsConsistent S (record r { claims = z })) (sym put)
            (claim_put r q found.0 s c)))

  -- Over any sequence of additions, of which some may raise, a consistent registry stays consistent: each
  -- record stands under the id that its content has, a source of an untrusted zone is tainted, a
  -- verified claim has a source, and sources, receipts and lineage that are referred to are there.
  pub add_all-IsConsistent :
      (calls : List Addition) (r : Registry) → IsConsistent S r → IsConsistent S (add_all S calls r)
  unfolding add_all add
  add_all-IsConsistent [] r c = c
  add_all-IsConsistent (source q actor at ∷ calls) r c =
      add_all-IsConsistent calls _ (add_source-IsConsistent r q actor at c)
  add_all-IsConsistent (receipt q actor at ∷ calls) r c =
      add_all-IsConsistent calls _ (add_validation_receipt-IsConsistent r q actor at c)
  add_all-IsConsistent (claim q actor at ∷ calls) r c =
      add_all-IsConsistent calls _ (add_claim-IsConsistent r q actor at c)
