-- ===== src/Broker/SingleUse.antt =====
-- A token that was used once authorizes nothing more, whatever requests come in between.
use vheatm.Prelude.{
  ℕ, String, ◌≡◌, refl, ◌⊎◌, true, false, Option, none, some, List, [], ◌∷◌, arith, Outcome, ok,
  raised, Bool-cases, inl, inr, subst,
}
use vheatm.Json.{Json, Fields, obj}
use vheatm.Broker.{Services, Broker, BrokerError}
use vheatm.Broker.Paths.{PurePosixPath, PathError}
use vheatm.Broker.Ledger.{TokenLedger}
use vheatm.Broker.Approval.{verify_approval}
use vheatm.Broker.Evaluate.{
  Decision, requires_approval, with_approval, with_policy, find_policy, with_scope, with_schema,
  tool_class_of, class_policy, scope_of_request, evaluate,
}
use vheatm.Broker.Safety.{evaluate-IsAuthorized}

module _ (S : Services) {L : Type 0} (T : TokenLedger L) where
  -- The ledger is left alone, or one token is consumed.
  abbrev Moves : L → L → Type 0
  Moves l l' = (l' ≡ l) ⊎ ((id : String) × (l' ≡ (T.consume id l).1))

  with_approval-Moves :
      (b : Broker) (tool_class : String) (request : Fields) (scope : PurePosixPath) (rid : String)
      (now : ℕ) (checked : Option String × String) (l : L)
      → Moves l (with_approval S T b tool_class request scope rid now checked l).1
  unfolding with_approval
  with_approval-Moves b tool_class request scope rid now (none, reason) l = inl refl
  with_approval-Moves b tool_class request scope rid now (some id, reason) l = inr (id, refl)

  with_policy-Moves :
      (b : Broker) (tool_class : String) (policy request : Fields) (scope : PurePosixPath)
      (given : Option Fields) (rid : String) (now : ℕ) (l : L)
      → Moves l (with_policy S T b tool_class policy request scope given rid now l).1
  unfolding with_policy
  with_policy-Moves b tool_class policy request scope given rid now l =
      elim (Bool-cases (requires_approval S b tool_class policy)) [
        | inl needed ↦ rw needed (
            with_approval-Moves b tool_class request scope rid now
              (verify_approval S b request given now) l)
        | inr free ↦ rw free (inl refl)
      ]

  find_policy-Moves :
      (b : Broker) (tool_class : String) (request : Fields) (scope : PurePosixPath)
      (given : Option Fields) (rid : String) (now : ℕ) (found : Option Json) (l : L)
      → Moves l (find_policy S T b tool_class request scope given rid now found l).1
  find_policy-Moves b tool_class request scope given rid now (some (obj policy)) l =
      with_policy-Moves b tool_class policy request scope given rid now l
  find_policy-Moves b tool_class request scope given rid now (some _) l = inl refl
  find_policy-Moves b tool_class request scope given rid now none l = inl refl

  with_scope-Moves :
      (b : Broker) (request : Fields) (found : Outcome PathError PurePosixPath)
      (given : Option Fields) (rid : String) (now : ℕ) (l : L)
      → Moves l (with_scope S T b request found given rid now l).1
  unfolding with_scope
  with_scope-Moves b request (raised e) given rid now l = inl refl
  with_scope-Moves b request (ok scope) given rid now l =
      let tool_class = tool_class_of S T request in
      find_policy-Moves b tool_class request scope given rid now (class_policy S T b tool_class) l

  with_schema-Moves :
      (b : Broker) (request : Fields) (errors : List String) (given : Option Fields) (rid : String)
      (now : ℕ) (l : L)
      → Moves l (with_schema S T b request errors given rid now l).1
  with_schema-Moves b request (m ∷ ms) given rid now l = inl refl
  with_schema-Moves b request [] given rid now l =
      with_scope-Moves b request (scope_of_request S T request) given rid now l

  evaluate-Moves :
      (b : Broker) (request : Fields) (given : Option Fields) (clock : Option ℕ) (l : L)
      → Moves l (evaluate S T b request given clock l).1
  unfolding evaluate
  evaluate-Moves b request given none l = inl refl
  evaluate-Moves b request given (some now) l =
      with_schema-Moves b request (S.request_errors request) given _ now l

  Moves-spent : (id : String) (l l' : L) → Moves l l' → T.spent id l ≡ true → T.spent id l' ≡ true
  Moves-spent id l l' (inl e) h = rw e h
  Moves-spent id l l' (inr (j, e)) h = rw (e, T.spent_after j id l, h) (ground arith)

  -- One call of the broker: what it is given besides the ledger.
  pub record Call : Type 0 where
    pub broker : Broker
    pub request : Fields
    pub token : Option Fields
    pub clock : Option ℕ

  abbrev pub run : Call → L → Outcome BrokerError Decision × L
  run c l = evaluate S T c.broker c.request c.token c.clock l

  -- The ledger after a sequence of calls, failed ones included.
  unfoldable pub run_all : List Call → L → L
  run_all [] l = l
  run_all (c ∷ cs) l = run_all cs (run c l).1

  run_all-spent :
      (id : String) (cs : List Call) (l : L)
      → T.spent id l ≡ true
      → T.spent id (run_all cs l) ≡ true
  unfolding run_all
  run_all-spent id [] l h = h
  run_all-spent id (c ∷ cs) l h =
      run_all-spent id cs (run c l).1
        (Moves-spent id l _ (evaluate-Moves c.broker c.request c.token c.clock l) h)

  -- The token of an allowed decision was fresh before it and is spent after it.
  consumed_by_allowed :
      (c : Call) (l l' : L) (d : Decision) (id : String)
      → run c l ≡ (ok d, l')
      → d.allowed ≡ true
      → d.approval_token_id ≡ some id
      → (T.spent id l ≡ false) × (T.spent id l' ≡ true)
  consumed_by_allowed c l l' d id h a named =
      let authorized = evaluate-IsAuthorized S T c.broker c.request c.token c.clock l l' d h a in
      let (grants, with_token, without) = authorized.rests in
      elim (Bool-cases
        (requires_approval S c.broker (tool_class_of S T c.request) authorized.policy)) [
          | inl needed ↦
              let (j, token, same, verified, consumed) = with_token needed in
              let (kept, fresh, spent) = consumed in
              let same_id : j ≡ id = cc (kept, named) in
              subst (λ i. (T.spent i l ≡ false) × (T.spent i l' ≡ true)) same_id (fresh, spent)
          | inr free ↦ cc ((without free).1)
        ]

  -- Once a token has served an allowed decision, no later call that names it is allowed, however
  -- many calls of any outcome come in between.
  pub single_use :
      (first second : Call) (between : List Call) (l l₁ l₂ : L) (d e : Decision) (id : String)
      → run first l ≡ (ok d, l₁)
      → d.allowed ≡ true
      → d.approval_token_id ≡ some id
      → run second (run_all between l₁) ≡ (ok e, l₂)
      → e.approval_token_id ≡ some id
      → e.allowed ≡ false
  single_use first second between l l₁ l₂ d e id h a named k renamed = elim (Bool-cases e.allowed) [
    | inr refused ↦ refused
    | inl again ↦
        let spent = run_all-spent id between l₁ (consumed_by_allowed first l l₁ d id h a named).1 in
        let fresh = (consumed_by_allowed second _ l₂ e id k again renamed).0 in cc (spent, fresh)
  ]
