-- ===== src/Lib.antt =====
-- The control plane of VHEATM (src/vheatm_control), an audit framework that is driven by a machine:
-- it decides which audit gates are active, tracks an audit's life, and guards the tools that an
-- agent may use.
--
-- Prelude holds what the modules share: tests on numbers, lists, Python's operations on texts,
-- results that may be errors, integers. Json models the values that Python reads from JSON and
-- YAML, with get, assignment to a key and Python's ==.
--
-- Lifecycle models lifecycle.py. AuditLifecycle has the audit's id, its state and its event log;
-- transition and from_document are the source's functions of these names, with from_document's
-- loop as replay_events and one round of it as replay_event.
--
-- Broker models tool_broker.py. Broker.Evaluate has ToolBroker.evaluate, cut where the source
-- returns early; Broker.Classes has the _evaluate_ methods, Broker.Approval has _verify_approval
-- and the digests, Broker.Receipt validate_policy_decision and build_tool_receipt,
-- Broker.Paths the workspace paths, Broker.Ledger the token ledgers. The ledger
-- is an interface that both ledgers of the source fill, and comes back beside an error.
--
-- Activation models activation.py: the expressions, in Activation.Evaluate their evaluation, where none
-- of Option is the source's _UNKNOWN, in Activation.Token the tokenizer, with its regular expression
-- written out as functions on texts, and in Activation.Parser the parser, whose position in the tokens
-- is the list of the tokens from there on. The token of kind EOF is the end of that list. The grammar in
-- Activation.Grammar is an independent description of what the parser reads.
--
-- Evaluator models evaluator.py. Evaluator.Context has normalize_context, Evaluator.Plan has
-- evaluate_manifest, with a record for the plan and plan_document for the dictionary it is, and
-- Evaluator.Merge has _merge_context with one function for each kind of field.
-- Evaluator.Integrity has assert_plan_matches and revise_plan. compile_activation is a field of the
-- record Evaluator.Plan.Runtime, of which Activation.Parser.compile_activation is an instance where no
-- literal is one that Python itself refuses (bad_literal): that escapes from evaluate_manifest in the
-- source. evaluate is that of Activation. Messages of errors are not modelled.
--
-- Profiles models the scores of semantic_profiles.py, by the functions' own names, over a record of
-- the numbers of policies/semantic-profiles.yaml. Loading that file and calculate_qbr are left out.
--
-- Hashing, HMAC, json.dumps, datetime.fromisoformat, jsonschema and comparisons of floats are
-- fields of records that the definitions take: Json.Python, Lifecycle.Runtime, Broker.Services,
-- Evaluator.Plan.Runtime, Activation.Parser.Reader and Provenance.Services.
-- The broker's policy and its requests have passed their schemas, so the keys that the schemas
-- require are read as being there. The evaluator reads its documents as they come.
--
-- Router models module_router.py: Router.Cycle has _find_cycle, Router.Topological _topological_order,
-- Router.Select and Router.Route _route_modules_unchecked, cut into its stages. The order in which
-- Python lists a set is a field of Router.Route.Environment, the disclosure budget (the int of a
-- product with a float) one of Router.Route.Registry. The ratios, which are floats, and the fields that
-- are copied from documents are left out of the result.
--
-- Provenance models the registry of provenance.py: Provenance.Identity has the content ids,
-- Provenance.Registry the additions and the journal, Provenance.Lineage the walk along a claim's lineage.
-- An addition gives back the registry also where it raises, since it changes the registry before its
-- last check. Provenance.Load has _load_document and Provenance.Journal _validate_journal. Saving, and
-- the functions that build records, are not modelled.
--
-- Most loops are recursions on lists and documents. The searches of Router and the walk of
-- Provenance.Lineage recurse on fuel: the walks on one or two more than the number of nodes, since a
-- path holds a node once, and the closure under dependencies on the length of its queue and the number
-- of modules, since a module is queued once. The tokenizer has one unit of fuel for each character, and
-- the parser four for each token, since four calls at most are made before one is read.
--
-- Not modelled are the other files of src/vheatm_control, among them session_store.py and
-- report_validator.py, loading and validating the repository's files, and the command lines.
pub mod Prelude
pub mod Json
pub mod Lifecycle
pub mod Broker
pub mod Activation
pub mod Evaluator
pub mod Profiles
pub mod Router
pub mod Provenance
