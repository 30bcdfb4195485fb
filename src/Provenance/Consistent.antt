-- ===== src/Provenance/Consistent.antt =====
-- What holds of each record of a registry, and of dictionaries of records when one is put in.
use vheatm.Prelude.{
  some_inj, ◌≡◌, refl, sym, ◌∙◌, subst, String, Bool, true, false, ◌&&◌, Bool-cases, some, List, [],
  ◌∷◌, ◌==◌, eq_iff, arith, inl, inr, has, all, lookup, ok, ok_steps, ok_inj, guard, if◌then◌else◌,
}
use vheatm.Json.{Fields, str_field}
use vheatm.Provenance.{Services, is_nil, id_mismatch, mutation}
use vheatm.Provenance.Identity.{
  ClaimIdentity, ReceiptIdentity, expected_source_id, validate_source_trust_state, claim_identity,
  expected_claim_id, validation_receipt_identity, expected_validation_receipt_id,
}
use vheatm.Provenance.Registry.{
  Records, Registry, ids_of, put_record, all_known, known_id, insert, unchanged,
}

-- Records are only added.
abbrev pub Grows : Records → Records → Type 0
Grows before after = (k : String) → has (ids_of before) k ≡ true → has (ids_of after) k ≡ true

pub put_record-Grows : (id : String) (r : Fields) (rs : Records) → Grows rs (put_record id r rs)
unfolding put_record
put_record-Grows id r [] k h = cc
put_record-Grows id r ((j, q) ∷ rs) k h = ground (arith, put_record-Grows id r rs k)

pub lookup-put_record :
    (id : String) (r : Fields) (rs : Records) (k : String)
    → lookup k (put_record id r rs) ≡ (if id == k then some r else lookup k rs)
unfolding put_record
lookup-put_record id r [] k = refl
lookup-put_record id r ((j, q) ∷ rs) k =
    ground (arith, lookup-put_record id r rs k, eq_iff j id, eq_iff j k, eq_iff id k)

-- What is found once a record is put in is that record, or was found before.
pub put_record-found :
    (id : String) (r : Fields) (rs : Records) (k : String) (q : Fields)
    (P : String → Fields → Type 0)
    → P id r
    → (lookup k rs ≡ some q → P k q)
    → lookup k (put_record id r rs) ≡ some q
    → P k q
put_record-found id r rs k q P new old h = elim (Bool-cases (id == k)) [
  | inl same ↦
      let e : r ≡ q = some_inj (sym (rw same at (lookup-put_record id r rs k)) ∙ h) in
      subst (λ z. P z q) ((eq_iff id k).0 same) (subst (P id) e new)
  | inr other ↦ old (sym (rw other at (lookup-put_record id r rs k)) ∙ h)
]

pub all_weaker :
    (p q : String → Bool) (xs : List String)
    → ((k : String) → p k ≡ true → q k ≡ true)
    → all p xs ≡ true
    → all q xs ≡ true
all_weaker p q [] w h = refl
all_weaker p q (x ∷ xs) w h = ground (arith, w x, all_weaker p q xs w)

module _ (S : Services) where
  pub insert-put_record :
      (target : Records) (r : Fields) (id : String) (after : Records)
      → insert S target r id ≡ ok after
      → after ≡ put_record id r target
  unfolding insert
  insert-put_record target r id after h =
      let (u, e, h1) = ok_steps (guard (str_field S.python "id" r == id) id_mismatch) _ h in
      let (v, f, h2) = ok_steps (guard (unchanged S (lookup id target) r) mutation) _ h1 in
      sym (ok_inj h2)

  -- A source stands under its content id, and is tainted where its zone is not trusted.
  pub record IsSource (id : String) (r : Fields) : Type 0 where
    pub named : expected_source_id S r ≡ ok id
    pub tainted : validate_source_trust_state S r ≡ ok tt

  pub record IsReceipt (sources : Records) (id : String) (r : Fields) : Type 0 where
    pub identity : ReceiptIdentity
    pub read : validation_receipt_identity S r ≡ ok identity
    pub named : expected_validation_receipt_id S r ≡ ok id
    pub sourced : all_known identity.source_refs sources ≡ true

  pub record IsClaim (known : Registry) (id : String) (r : Fields) : Type 0 where
    pub identity : ClaimIdentity
    pub read : claim_identity S r ≡ ok identity
    pub named : expected_claim_id S r ≡ ok id
    pub verified : (identity.epistemic_status == "verified" && is_nil identity.source_refs) ≡ false
    pub sourced : all_known identity.source_refs known.sources ≡ true
    pub validated : all_known identity.validation_receipt_refs known.validation_receipts ≡ true
    pub descended : all (known_id known) identity.lineage_refs ≡ true
    pub not_own : has identity.lineage_refs id ≡ false

  -- Each record stands under its content id and refers to records of the registry only.
  pub record IsConsistent (r : Registry) : Type 0 where
    pub sources_hold : (id : String) (q : Fields) → lookup id r.sources ≡ some q → IsSource id q
    pub receipts_hold :
        (id : String) (q : Fields)
        → lookup id r.validation_receipts ≡ some q
        → IsReceipt r.sources id q
    pub claims_hold : (id : String) (q : Fields) → lookup id r.claims ≡ some q → IsClaim r id q

  pub IsReceipt-Grows :
      (sources after : Records) (id : String) (q : Fields)
      → Grows sources after
      → IsReceipt sources id q
      → IsReceipt after id q
  IsReceipt-Grows sources after id q g c = record {
    identity = c.identity;
    read = c.read;
    named = c.named;
    sourced =
        all_weaker (has (ids_of sources)) (has (ids_of after)) c.identity.source_refs g c.sourced;
  }

  pub IsClaim-Grows :
      (r after : Registry) (id : String) (q : Fields)
      → Grows r.sources after.sources
      → Grows r.validation_receipts after.validation_receipts
      → Grows r.claims after.claims
      → IsClaim r id q
      → IsClaim after id q
  IsClaim-Grows r after id q g h k c = record {
    identity = c.identity;
    read = c.read;
    named = c.named;
    verified = c.verified;
    sourced =
        all_weaker (has (ids_of r.sources)) (has (ids_of after.sources)) c.identity.source_refs g
          c.sourced;
    validated =
        all_weaker (has (ids_of r.validation_receipts)) (has (ids_of after.validation_receipts))
          c.identity.validation_receipt_refs h c.validated;
    descended =
        all_weaker (known_id r) (known_id after) c.identity.lineage_refs
          (λ x old. ground (arith, g x, h x, k x)) c.descended;
    not_own = c.not_own;
  }
