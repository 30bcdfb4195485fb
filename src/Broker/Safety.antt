-- ===== src/Broker/Safety.antt =====
-- What an allowed decision of the broker rests on, and that a token serves one decision only.
use vheatm.Prelude.{
  ℕ, String, ◌≡◌, refl, ap, sym, ◌∙◌, Bool, true, false, Option, none, some, List, [], ◌∷◌, arith,
  eq_refl, Outcome, ok, raised, Bool-cases, inl, inr,
}
use vheatm.Json.{Json, Fields, obj}
use vheatm.Broker.{Services, Broker}
use vheatm.Broker.Paths.{PurePosixPath, PathError}
use vheatm.Broker.Ledger.{TokenLedger}
use vheatm.Broker.Classes.{Verdict, evaluate_class}
use vheatm.Broker.Approval.{IsVerified, verify_approval, verify_approval-IsVerified}
use vheatm.Broker.Evaluate.{
  Decision, approved_controls, base_controls, checked_decision, decide, judge, requires_approval,
  with_approval, without_approval, with_policy, find_policy, with_scope, with_schema, tool_class_of,
  class_policy, scope_of_request, evaluate,
}

module _ {L : Type 0} {A : Type 0} where
  first : {r : A × L} {a : A} {l : L} → r ≡ (a, l) → r.0 ≡ a
  first h = ap (λ (x : A × L). x.0) h

  second : {r : A × L} {a : A} {l : L} → r ≡ (a, l) → r.1 ≡ l
  second h = ap (λ (x : A × L). x.1) h

module _ (S : Services) where
  checked_decision-eq :
      (d : Decision) (errors : List String) {e : Decision}
      → checked_decision S d errors ≡ ok e
      → e ≡ d
  checked_decision-eq d [] h = ground arith
  checked_decision-eq d (m ∷ ms) h = cc

  decide_fields :
      (rid : String) (now : ℕ) (allowed : Bool) (reason : String) (controls : List String)
      (token_id : Option String) {d : Decision}
      → decide S rid now allowed reason controls token_id ≡ ok d
      → (d.allowed ≡ allowed) × (d.approval_token_id ≡ token_id)
  unfolding decide
  decide_fields rid now allowed reason controls token_id h =
      let e = checked_decision-eq _ (S.decision_errors _) h in
      (ap (λ (x : Decision). x.allowed) e, ap (λ (x : Decision). x.approval_token_id) e)

  -- The class's evaluator has allowed the request.
  abbrev pub Grants : Broker → Fields → String → PurePosixPath → Type 0
  Grants b request tool_class scope =
      (reason : String) × (controls : List String) × (evaluate_class S b tool_class request scope
        ≡ some (true, reason, controls))

  judge-allowed :
      (rid : String) (now : ℕ) (tool_class : String) (controls : List String)
      (token_id : Option String) (verdict : Option Verdict) (d : Decision)
      → judge S rid now tool_class controls token_id verdict ≡ ok d
      → d.allowed ≡ true
      → (reason : String) × (granted : List String) × (verdict ≡ some (true, reason, granted))
        × (d.approval_token_id ≡ token_id)
  judge-allowed rid now tool_class controls token_id none d h a =
      cc ((decide_fields rid now _ _ _ token_id h).0)
  judge-allowed rid now tool_class controls token_id (some (true, reason, granted)) d h a =
      (reason, granted, refl, (decide_fields rid now _ _ _ token_id h).1)
  judge-allowed rid now tool_class controls token_id (some (false, reason, granted)) d h a =
      cc ((decide_fields rid now _ _ _ token_id h).0)

  module _ {L : Type 0} (T : TokenLedger L) where
    -- What stands behind an allowed decision with the token `id`.
    abbrev pub Consumed : L → L → Decision → String → Type 0
    Consumed l l' d id =
        (d.approval_token_id ≡ some id) × (T.spent id l ≡ false) × (T.spent id l' ≡ true)

    spent_self : (id : String) (l : L) → T.spent id (T.consume id l).1 ≡ true
    spent_self id l = T.spent_after id id l ∙ ground (arith, eq_refl id)

    with_approval-allowed :
        (b : Broker) (tool_class : String) (request : Fields) (scope : PurePosixPath) (rid : String)
        (now : ℕ) (checked : Option String × String) (l : L) (d : Decision) {l' : L}
        → with_approval S T b tool_class request scope rid now checked l ≡ (ok d, l')
        → d.allowed ≡ true
        → (id : String) × (checked.0 ≡ some id)
          × Consumed l l' d id
          × Grants b request tool_class scope
    unfolding with_approval
    with_approval-allowed b tool_class request scope rid now (none, reason) l d h a =
        cc ((decide_fields rid now _ _ _ _ (first h)).0)
    with_approval-allowed b tool_class request scope rid now (some id, reason) l d h a =
        elim (Bool-cases (T.consume id l).0) [
          | inl fresh ↦
              let result = rw fresh at (first h) in
              let (why, granted, e, kept) =
                judge-allowed rid now tool_class approved_controls (some id)
                  (evaluate_class S b tool_class request scope) d result a in
              (
                id,
                refl,
                (kept, ground (arith, T.consume_fresh id l), rw (← second h) (spent_self id l)),
                (why, granted, e),
              )
          | inr stale ↦ cc ((decide_fields rid now _ _ _ _ (rw stale at (first h))).0)
        ]

    without_approval-allowed :
        (b : Broker) (tool_class : String) (request : Fields) (scope : PurePosixPath) (rid : String)
        (now : ℕ) (given : Option Fields) (d : Decision)
        → without_approval S T b tool_class request scope rid now given ≡ ok d
        → d.allowed ≡ true
        → (given ≡ none) × (d.approval_token_id ≡ none) × Grants b request tool_class scope
    without_approval-allowed b tool_class request scope rid now (some token) d h a =
        cc ((decide_fields rid now _ _ _ _ h).0)
    without_approval-allowed b tool_class request scope rid now none d h a =
        let (why, granted, e, kept) =
          judge-allowed rid now tool_class base_controls none
            (evaluate_class S b tool_class request scope) d h a in
        (refl, kept, (why, granted, e))

    -- What an allowed decision rests on, by whether the class wants approval.
    abbrev pub Rests :
        Broker
        → String
        → Fields
        → Fields
        → PurePosixPath
        → Option Fields
        → ℕ
        → L
        → L
        → Decision
        → Type 0
    Rests b tool_class policy request scope given now l l' d =
        Grants b request tool_class scope
        × (requires_approval S b tool_class policy ≡ true
            → (id : String) × (token : Fields) × (given ≡ some token)
              × IsVerified S b request token now id
              × Consumed l l' d id)
        × (requires_approval S b tool_class policy ≡ false
            → (given ≡ none) × (d.approval_token_id ≡ none) × (l' ≡ l))

    with_policy-allowed :
        (b : Broker) (tool_class : String) (policy request : Fields) (scope : PurePosixPath)
        (given : Option Fields) (rid : String) (now : ℕ) (l : L) (d : Decision) {l' : L}
        → with_policy S T b tool_class policy request scope given rid now l ≡ (ok d, l')
        → d.allowed ≡ true
        → Rests b tool_class policy request scope given now l l' d
    unfolding with_policy
    with_policy-allowed b tool_class policy request scope given rid now l d h a =
        elim (Bool-cases (requires_approval S b tool_class policy)) [
          | inl needed ↦
              let (id, e, spent, grants) =
                with_approval-allowed b tool_class request scope rid now
                  (verify_approval S b request given now) l d (rw needed at h) a in
              let (token, same, verified) = verify_approval-IsVerified S b request given now id e in
              (grants, λ _. (id, token, same, verified, spent), λ n. cc)
          | inr free ↦
              let (absent, unnamed, grants) =
                without_approval-allowed b tool_class request scope rid now given d
                  (first (rw free at h)) a in
              (grants, λ n. cc, λ _. (absent, unnamed, sym (second (rw free at h))))
        ]

    find_policy-allowed :
        (b : Broker) (tool_class : String) (request : Fields) (scope : PurePosixPath)
        (given : Option Fields) (rid : String) (now : ℕ) (found : Option Json) (l : L)
        (d : Decision) {l' : L}
        → find_policy S T b tool_class request scope given rid now found l ≡ (ok d, l')
        → d.allowed ≡ true
        → (policy : Fields) × (found ≡ some (obj policy))
          × Rests b tool_class policy request scope given now l l' d
    find_policy-allowed b tool_class request scope given rid now (some (obj policy)) l d h a =
        (policy, refl, with_policy-allowed b tool_class policy request scope given rid now l d h a)
    find_policy-allowed b tool_class request scope given rid now (some _) l d h a =
        cc ((decide_fields rid now _ _ _ _ (first h)).0)
    find_policy-allowed b tool_class request scope given rid now none l d h a =
        cc ((decide_fields rid now _ _ _ _ (first h)).0)

    with_scope-allowed :
        (b : Broker) (request : Fields) (found : Outcome PathError PurePosixPath)
        (given : Option Fields) (rid : String) (now : ℕ) (l : L) (d : Decision) {l' : L}
        → with_scope S T b request found given rid now l ≡ (ok d, l')
        → d.allowed ≡ true
        → (scope : PurePosixPath) × (policy : Fields) × (found ≡ ok scope)
          × (class_policy S T b (tool_class_of S T request) ≡ some (obj policy))
          × Rests b (tool_class_of S T request) policy request scope given now l l' d
    unfolding with_scope
    with_scope-allowed b request (raised e) given rid now l d h a =
        cc ((decide_fields rid now _ _ _ _ (first h)).0)
    with_scope-allowed b request (ok scope) given rid now l d h a =
        let tool_class = tool_class_of S T request in
        let (policy, e, rests) =
          find_policy-allowed b tool_class request scope given rid now
            (class_policy S T b tool_class) l d h a in
        (scope, policy, refl, e, rests)

    -- What an allowed decision rests on.
    pub record IsAuthorized (b : Broker) (request : Fields) (given : Option Fields)
        (clock : Option ℕ) (l l' : L) (d : Decision) : Type 0 where
      pub now : ℕ
      pub on_time : clock ≡ some now
      pub well_formed : S.request_errors request ≡ []
      pub scope : PurePosixPath
      pub scoped : scope_of_request S T request ≡ ok scope
      pub policy : Fields
      pub known : class_policy S T b (tool_class_of S T request) ≡ some (obj policy)
      pub rests : Rests b (tool_class_of S T request) policy request scope given now l l' d

    with_schema-allowed :
        (b : Broker) (request : Fields) (errors : List String) (given : Option Fields)
        (rid : String) (now : ℕ) (l : L) (d : Decision) {l' : L}
        → S.request_errors request ≡ errors
        → with_schema S T b request errors given rid now l ≡ (ok d, l')
        → d.allowed ≡ true
        → IsAuthorized b request given (some now) l l' d
    with_schema-allowed b request (m ∷ ms) given rid now l d e h a =
        cc ((decide_fields rid now _ _ _ _ (first h)).0)
    with_schema-allowed b request [] given rid now l d e h a =
        let (scope, policy, scoped, known, rests) =
          with_scope-allowed b request (scope_of_request S T request) given rid now l d h a in
        record {
          now = now;
          on_time = refl;
          well_formed = e;
          scope = scope;
          scoped = scoped;
          policy = policy;
          known = known;
          rests = rests;
        }

    -- A decision that allows a request was made by a clock that read a time, on a request that the
    -- schema accepts, for a scope that the workspace accepts and a class that the policy knows. The
    -- class's own evaluator grants the request. Where the class wants approval, the decision names
    -- a verified token that was unspent before the call and is spent after it; where it does not, no
    -- token was given and the ledger is unchanged.
    pub evaluate-IsAuthorized :
        (b : Broker) (request : Fields) (given : Option Fields) (clock : Option ℕ) (l l' : L)
        (d : Decision)
        → evaluate S T b request given clock l ≡ (ok d, l')
        → d.allowed ≡ true
        → IsAuthorized b request given clock l l' d
    unfolding evaluate
    evaluate-IsAuthorized b request given none l l' d h a = cc (first h)
    evaluate-IsAuthorized b request given (some now) l l' d h a =
        with_schema-allowed b request (S.request_errors request) given _ now l d refl h a
