-- ===== src/Lib.antt =====
-- TraceGuard regulates what an agent may do. A control plane (src/traceguard/control/service.py)
-- keeps the policies of its tenants, decides on actions by the rules of the active policy
-- (src/traceguard/policy/matching.py, with URL scopes of src/traceguard/policy/network.py), opens
-- reviews for escalated actions and writes a hash-chained audit log of redacted payloads
-- (src/traceguard/supervisor/redaction.py). A client (src/traceguard/sdk.py) keeps a bundle that
-- the plane signed, and decides read-only actions by it when the plane is out of reach. Requests
-- to it have budgets (src/traceguard/control/admission.py). For a registered task, whose strict
-- grant src/traceguard/policy/kernel.py compiled, the plane issues signed execution grants
-- (src/traceguard/control/execution.py). An executor reserves each effect in a durable ledger
-- (src/traceguard/ledger.py) before it dispatches it, and finishes or reconciles the reservation
-- after.
--
-- Files and code:
--   Common       tests, lists, tables, and Python's exceptions as a result type
--   Json         JSON values (Values); redact_value (Redact); validate_json of limits.py (Limits)
--   Policy       Network: destination and target_within_scope; Matching: matches, same_value,
--                select_rule; Network/Scope and Matching/Selection: their properties
--   Control      Models: control/models.py; Platform: what the plane takes from libraries;
--                Plane: the state of ControlPlane, _require, _append_audit, verify_audit_chain;
--                Policies: create_draft, submit_policy, approve_policy, rollback, revoke_credential,
--                suspend_tenant, active_policy; Bundles: signed_bundle; Actions: Decide and Evaluate
--                for evaluate and _decision, Resolve for resolve_review; Audit,
--                Bundles/Scoped, Policies/Active, Policies/Approval, Actions/Replay,
--                Actions/Reviews and Calls: properties
--   Admission    RequestLimits of control/admission.py, before a request is read and at its end; Window,
--                Puts, Rate, Budgets: properties
--   Client       SignedPolicyCache: install and evaluate; Trust, Offline, Handover: properties
--   Executor     MediatedExecutor.execute; Reconcile: MediatedExecutor.reconcile; Once: properties
--   Authority    Calls: the contracts of types.py; Registry: what is loaded and given, with tool_effect
--                and policy/effects.py; Grants: validate_authority and ungranted_fields of
--                policy/kernel.py; Checks: check_authority of policy/authorization.py for a strict
--                grant; Reads: policy/read_resources.py; Kernel: CompiledAuthority, and the schema
--                check of supervisor/contracts.py; Permits, Allowed, Paid, Covered, Omitted,
--                InScope, Granting, Granted, Valid, Bound: properties
--   Execution    control/execution.py. Amount: payment_amount; Issuer: _task; Register: register,
--                bind_legacy_domain; Issue: issue, validate; Calls: the calls of the control plane and
--                of this; Tasks, Validated, Issued, Frames, RoundTrip, Kept,
--                Epochs, Replays: properties
--   Ledger       Rows: the tables; Store: provision, _check_file, _connection; Reserve: reserve;
--                Settle: finish, decide_result, lookup, reconcile; Perform: the calls; Change: the
--                life of a row as a step relation, against which the operations are checked; Runs:
--                sequences of calls
--   Tests, ReviewTests, ReplayTests   runs on concrete input
--
-- State. A method is a function from the state to its result and the state that it leaves; a raise
-- is an `err`, beside the state written before it. A dict is a function to an option, a set is the
-- test of its members. The lock of the control plane and SQLite's transactions make calls a
-- sequence, so a run is a list of calls. An execution meets the calls of other clients between its
-- reservation and its finish (`meanwhile`). A transaction that is not committed when its
-- connection closes leaves the database as it was; `finish` and `decide_result` run in autocommit.
-- Where two rows fit the first query of `reserve`, the one that was inserted first is taken. The
-- field `contents` of a policy version is the source's `draft`, and `rewrite_payload` of a rule
-- its `rewrite`.
--
-- Numbers. The executor's amounts are natural numbers of the smallest unit of a currency; the 28
-- digits of Python's decimal context are no bound of the model. A number of the kernel is an int,
-- whose sums and comparisons are exact, or a float, whose arithmetic is given; an int that no
-- float can hold, where Python raises, is taken as finite. Times are natural numbers of seconds,
-- and one reading of the clock serves a call (`Draw`), which also gives the identifiers of
-- `uuid4`. All recursion is structural; the loop of `validate_json` runs on its own budget of
-- nodes, at whose end it raises.
--
-- Given, as parameters: `urlsplit`, IDNA, IPv6 addresses, percent decoding and the pattern of host
-- names (`UrlLibrary`); `json.dumps` and the search for instructions (`MatchLibrary`); SHA-256 of
-- canonical JSON, pydantic's dumps and the redaction patterns (`Platform`, and the parameters of
-- `redact_value`), what the online validation and the dispatch answer (`Outside`, `Executor`), the
-- signing and verifying functions of bundles and grants (`Issuer`); the reviewed data of
-- data/policy, JSON schemas, number texts, the arithmetic of floats, paths and Python's `==`
-- (`Registry`, `Library`). Where a bundle or a grant is handed over, a named hypothesis says that
-- a signature verifies; where a read schema is bound, one says that `==` holds of a value and
-- itself. A bundle that the cache stores as JSON is read back as it was.
--
-- Not modelled: `migrate_legacy` of the ledger, `export_audit` of the control plane, the client's
-- HTTP calls, the limits that pydantic checks when a value is built, and the parts of the program
-- that judge grants by the words of a goal, serve HTTP, isolate processes and call language
-- models.
pub mod Common
pub mod Json
pub mod Policy
pub mod Control
pub mod Ledger
pub mod Admission
pub mod Client
pub mod Execution
pub mod Executor
pub mod Authority
