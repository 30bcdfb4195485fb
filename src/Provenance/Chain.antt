-- ===== src/Provenance/Chain.antt =====
-- The journal is a chain of hashes to which additions only append.
use vheatm.Prelude.{
  has, ◌≡◌, refl, subst, String, Bool, not, ◌||◌, Bool-cases, Option, none, some, List, [], ◌∷◌,
  ◌++◌, inl, inr, is_blank, ok, ok_steps, ok_inj, guard,
}
use vheatm.Json.{Json, Fields, null, str, get}
use vheatm.Provenance.{Services, empty_actor}
use vheatm.Provenance.Registry.{
  ids_of, occurred, Addition, source, receipt, claim, Registry, last_hash,
  expected_journal_event_id, expected_event_hash, make_journal_event, append_journal, log,
  checked_source, checked_receipt, checked_claim, add, add_all,
}
use vheatm.Provenance.Preserved.{settles}

abbrev hash_of : Option Json → Json
hash_of none = null
hash_of (some v) = v

abbrev last_or : Json → List Fields → Json
last_or first [] = first
last_or first (e ∷ es) = last_hash (e ∷ es)

last_or_none : (events : List Fields) → last_hash events ≡ last_or (str "") events
unfolding last_hash
last_or_none [] = refl
last_or_none (e ∷ es) = refl

module _ (S : Services) where
  -- The event names the hash before it, and carries the id and the hash of its content.
  pub record IsLinked (previous : Json) (event : Fields) : Type 0 where
    pub linked : get "previous_hash" event ≡ some previous
    pub named : get "id" event ≡ some (str (expected_journal_event_id S event))
    pub hashed : get "event_hash" event ≡ some (str (expected_event_hash S event))

  abbrev pub IsChain : Json → List Fields → Type 0
  IsChain previous [] = Unit
  IsChain previous (event ∷ events) =
      IsLinked previous event × IsChain (str (expected_event_hash S event)) events

  make_journal_event-IsLinked :
      (record_type id actor at : String) (previous : Json) (event : Fields)
      → make_journal_event S record_type id actor at previous ≡ ok event
      → IsLinked previous event
  unfolding make_journal_event
  make_journal_event-IsLinked record_type id actor at previous event h =
      let (u, e, h1) = ok_steps (guard (not (is_blank actor)) empty_actor) _ h in
      subst (IsLinked previous) (ok_inj h1) (record { linked = refl; named = refl; hashed = refl })

  IsChain-snoc :
      (first : Json) (events : List Fields) (event : Fields)
      → IsChain first events
      → IsLinked (last_or first events) event
      → IsChain first (events ++ event ∷ [])
  unfolding last_hash
  IsChain-snoc first [] event c l = (l, tt)
  IsChain-snoc first (e ∷ []) event c l =
      (c.0, (subst (λ z. IsLinked (hash_of z) event) c.0.hashed l, tt))
  IsChain-snoc first (e ∷ f ∷ es) event c l =
      (c.0, IsChain-snoc (str (expected_event_hash S e)) (f ∷ es) event c.1 l)

  append_journal-IsChain :
      (record_type id actor at : String) (r : Registry)
      → IsChain (str "") r.journal
      → IsChain (str "") (append_journal S record_type id actor at r).1.journal
  unfolding append_journal
  append_journal-IsChain record_type id actor at r c =
      settles (make_journal_event S record_type id actor at (last_hash r.journal)) r _
        (λ z. IsChain (str "") z.journal) c
        (λ event h. IsChain-snoc (str "") r.journal event c (
          subst (λ z. IsLinked z event) (last_or_none r.journal)
            (make_journal_event-IsLinked record_type id actor at (last_hash r.journal) event h)))

  log-IsChain :
      (existed : Bool) (record_type id actor at : String) (r : Registry)
      → IsChain (str "") r.journal
      → IsChain (str "") (log S existed record_type id actor at r).1.journal
  unfolding log
  log-IsChain existed record_type id actor at r c = elim (Bool-cases (existed || r.loading)) [
    | inl quiet ↦ rw quiet c
    | inr loud ↦ rw loud (append_journal-IsChain record_type id actor at r c)
  ]

  add-IsChain :
      (call : Addition) (r : Registry)
      → IsChain (str "") r.journal
      → IsChain (str "") (add S call r).1.journal
  unfolding add
  add-IsChain (source q actor at) r c =
      settles (checked_source S r q) r _ (λ z. IsChain (str "") z.journal) c
        (λ found h.
          log-IsChain (has (ids_of r.sources) found.0) "source" found.0 actor
            (occurred S at "captured_at" q) (record r { sources = found.1 }) c)
  add-IsChain (receipt q actor at) r c =
      settles (checked_receipt S r q) r _ (λ z. IsChain (str "") z.journal) c
        (λ found h.
          log-IsChain (has (ids_of r.validation_receipts) found.0) "validation_receipt" found.0
            actor (occurred S at "validated_at" q) (record r { validation_receipts = found.1 }) c)
  add-IsChain (claim q actor at) r c =
      settles (checked_claim S r q) r _ (λ z. IsChain (str "") z.journal) c
        (λ found h.
          log-IsChain (has (ids_of r.claims) found.0) "claim" found.0 actor
            (occurred S at "captured_at" q) (record r { claims = found.1 }) c)

  -- Over any sequence of additions, of which some may raise, the journal stays a chain: each event names
  -- the hash of the one before it, the first names the empty text, and each carries the id and the hash
  -- that its own content has.
  pub add_all-IsChain :
      (calls : List Addition) (r : Registry)
      → IsChain (str "") r.journal
      → IsChain (str "") (add_all S calls r).journal
  unfolding add_all
  add_all-IsChain [] r c = c
  add_all-IsChain (call ∷ calls) r c = add_all-IsChain calls (add S call r).1 (add-IsChain call r c)
