-- ===== src/Lifecycle/Replay.antt =====
-- What a transition does, and the replay of the log that the transitions wrote.
use vheatm.Prelude.{
  ℕ, ◌+◌, String, ◌≡◌, refl, sym, ap, ◌∙◌, true, false, ◌||◌, Option, some, List, [], ◌∷◌, ◌++◌,
  map, eq_refl, ok, arith, pos, length, is_blank, sort_unique, sort_unique-IsAscending,
  sort_unique-of_IsAscending,
}
use vheatm.Json.{
  Python, json_eq, items_eq, Json, Fields, str, int, field, remove, to_list, from_list,
}
use vheatm.Lifecycle.{
  State, state_of, permits, Runtime, AuditLifecycle, texts, timestamp_or, validate_time, event_id,
  all_texts, sorted_set, payload_of, checked_refs, transition, replay_event,
}
use vheatm.Lifecycle.Edges.{state_of-state_name}

-- The event that a transition to `to` writes.
abbrev written : Runtime → AuditLifecycle → State → String → String → String → List String → Fields
written R lc to actor reason timestamp refs =
    let payload =
      payload_of R lc.audit_id lc.state to actor reason timestamp (sort_unique refs)
        (length lc.events + 1) in
    field "id" (str (event_id R payload)) payload

module _ (R : Runtime) where
  pub transition_parts :
      (lc : AuditLifecycle) (target actor reason : String) (at : Option String) (now : String)
      (refs : List String) {lc' : AuditLifecycle} {event : Fields}
      → transition R lc target actor reason at now refs ≡ ok (lc', event)
      → (state_of target ≡ some lc'.state)
        × (permits lc.state lc'.state ≡ true)
        × (is_blank actor || is_blank reason ≡ false)
        × (validate_time R (timestamp_or R at now) ≡ ok tt)
        × (event ≡ written R lc lc'.state actor reason (timestamp_or R at now) refs)
        × (lc'.events ≡ lc.events ++ event ∷ [])
        × (lc'.audit_id ≡ lc.audit_id)
  unfolding transition
  transition_parts lc target actor reason at now refs h = ground arith

all_texts-from_list : (ss : List String) → all_texts (from_list (map str ss)) ≡ some ss
unfolding all_texts
all_texts-from_list [] = refl
all_texts-from_list (s ∷ ss) = rw (all_texts-from_list ss)

texts_eq_refl :
    (P : Python) (ss : List String)
    → items_eq P (from_list (map str ss)) (from_list (map str ss)) ≡ true
unfolding json_eq items_eq
texts_eq_refl P [] = refl
texts_eq_refl P (s ∷ ss) = rw (eq_refl s) (texts_eq_refl P ss)

pub str_eq_refl : (P : Python) (s : String) → json_eq P (str s) (str s) ≡ true
unfolding json_eq
str_eq_refl P s = eq_refl s

int_eq_refl : (P : Python) (n : ℕ) → json_eq P (int (pos n)) (int (pos n)) ≡ true
unfolding json_eq
int_eq_refl P n = ground arith

pub to_list-from_list : (vs : List Json) → to_list (from_list vs) ≡ vs
to_list-from_list [] = refl
to_list-from_list (v ∷ vs) = ap (λ us. v ∷ us) (to_list-from_list vs)

module _ (R : Runtime) where
  sorted_set-sorted :
      (refs : List String)
      → let sorted = from_list (map str (sort_unique refs)) in sorted_set R sorted ≡ some sorted
  unfolding sorted_set
  sorted_set-sorted refs = ground (
    arith,
    all_texts-from_list (sort_unique refs),
    sort_unique-of_IsAscending (sort_unique refs) (sort_unique-IsAscending refs),
  )

  checked_refs-sorted :
      (n : ℕ) (refs : List String) → checked_refs R n (some (texts (sort_unique refs))) ≡ ok tt
  checked_refs-sorted n refs =
      ground (arith, sorted_set-sorted refs, texts_eq_refl R.python (sort_unique refs))

  -- An event as `transition` writes it passes every test of the replay.
  replay_event-written :
      (lc : AuditLifecycle) (to : State) (actor reason timestamp : String) (refs : List String)
      → permits lc.state to ≡ true
      → is_blank actor || is_blank reason ≡ false
      → validate_time R timestamp ≡ ok tt
      → let event = written R lc to actor reason timestamp refs in
        replay_event R (length lc.events + 1) event lc
        ≡ ok (record lc { events = lc.events ++ event ∷ []; state = to })
  unfolding replay_event remove
  replay_event-written lc to actor reason timestamp refs allowed named timed = simp (
    int_eq_refl, str_eq_refl, state_of-state_name, allowed, named, timed, checked_refs-sorted,
    eq_refl,
  )

  -- Replaying the event that a transition wrote repeats the transition.
  pub replay_event-transition :
      (lc : AuditLifecycle) (target actor reason : String) (at : Option String) (now : String)
      (refs : List String) {lc' : AuditLifecycle} {event : Fields}
      → transition R lc target actor reason at now refs ≡ ok (lc', event)
      → replay_event R (length lc.events + 1) event lc ≡ ok lc'
  replay_event-transition lc target actor reason at now refs {lc'} {event} h =
      let (_, allowed, named, timed, e, logged, kept) =
        transition_parts R lc target actor reason at now refs h in
      let replayed =
        replay_event-written lc lc'.state actor reason (timestamp_or R at now) refs allowed named
          timed in
      let same : lc' ≡ record lc { events = lc.events ++ event ∷ []; state = lc'.state } =
        ground arith in
      rw (← e) at replayed ∙ ap ok (sym same)
