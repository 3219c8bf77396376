-- ===== src/Control/Platform.antt =====
-- What src/traceguard/control/service.py takes from its libraries: regular expressions, pydantic's
-- `model_dump` behind canonical JSON and SHA-256, the clock and `uuid4`.
use trace_guard.Common.{ℕ, String, Bool, Option, List}
use trace_guard.Json.{Json, Fields}
use trace_guard.Policy.Matching.{MatchLibrary}
use trace_guard.Control.Models.{ActionKind, ActionRequest, Evidence, Review, AuditEvent}

-- An action without `action_id`, `requested_at` and `idempotency_key`, which its digest leaves out.
pub record ActionBody : Type 0 where
  pub tenant_id : String
  pub task_id : String
  pub kind : ActionKind
  pub operation : String
  pub target : Option String
  pub arguments : Fields
  pub provenance : List String
  pub evidence : List Evidence

pub record Platform : Type 0 where
  pub matching : MatchLibrary
  pub redact_text : String → String
  pub is_sensitive : String → Bool
  -- `sha256(canonical(payload)).hexdigest()` of an action's body, and of an event whose
  -- `event_hash` is left out (here: empty)
  pub hash_action : ActionBody → String
  pub hash_event : AuditEvent → String
  -- `model_dump(mode="json")`
  pub dump_review : Review → Json
  pub dump_evidence : Evidence → Json

-- What one call draws from the clock and from `uuid4`.
pub record Draw : Type 0 where
  pub now : ℕ
  pub policy_id : String
  pub audit_id : String
  pub second_audit_id : String
  pub review_id : String
  pub nonce : String

abbrev pub body_of : ActionRequest → ActionBody
body_of a = record {
  tenant_id = a.tenant_id;
  task_id = a.task_id;
  kind = a.kind;
  operation = a.operation;
  target = a.target;
  arguments = a.arguments;
  provenance = a.provenance;
  evidence = a.evidence;
}

-- `action_digest`
unfoldable pub action_digest : Platform → ActionRequest → String
action_digest p a = p.hash_action (body_of a)
