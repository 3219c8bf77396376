-- ===== src/Control/Models.antt =====
-- The contracts of src/traceguard/control/models.py. A set is the test of its members, a time is a
-- number of seconds.
use trace_guard.Common.{ℕ, String, Bool, true, false, Option, List}
use trace_guard.Json.{Json, Fields}

pub data Role : Type 0 where
  admin approver reviewer auditor agent executor : Role

pub data ActionKind : Type 0 where
  model_request model_response tool memory_read memory_write filesystem executor_call http :
      ActionKind

pub data Decision : Type 0 where
  allow block escalate rewrite : Decision

pub data PolicyStatus : Type 0 where
  draft pending_approval active rolled_back : PolicyStatus

pub data ReviewResolution : Type 0 where
  allowed denied : ReviewResolution

pub record Actor : Type 0 where
  pub subject : String
  pub roles : Role → Bool
  pub service_key_id : Option String
  pub tenant_ids : String → Bool
  pub allowed_operations : Option (String → Bool)

pub record Evidence : Type 0 where
  pub content : String
  pub source : String
  pub contains_instructions : Bool

pub record ActionRequest : Type 0 where
  pub tenant_id : String
  pub idempotency_key : String
  pub task_id : String
  pub action_id : String
  pub kind : ActionKind
  pub operation : String
  pub target : Option String
  pub arguments : Fields
  pub provenance : List String
  pub evidence : List Evidence
  pub requested_at : ℕ

pub record RuleMatch : Type 0 where
  pub kind : Option ActionKind
  pub operation : Option String
  pub target_prefix : Option String
  pub argument_equals : List (String × Json)
  pub contains_untrusted_instructions : Option Bool

pub record PolicyRule : Type 0 where
  pub rule_id : String
  pub name : String
  pub priority : ℕ
  pub match : RuleMatch
  pub decision : Decision
  pub reason : String
  pub rewrite_payload : Option Fields
  pub cache_eligible : Bool

-- `Literal[Decision.BLOCK, Decision.ESCALATE]`
pub data DefaultDecision : Type 0 where
  block_default escalate_default : DefaultDecision

pub record PolicyDraft : Type 0 where
  pub name : String
  pub rules : List PolicyRule
  pub default_decision : DefaultDecision

pub record PolicyVersion : Type 0 where
  pub policy_id : String
  pub tenant_id : String
  pub version : ℕ
  pub contents : PolicyDraft
  pub status : PolicyStatus
  pub created_by : String
  pub approved_by : Option String
  pub activated_at : Option ℕ
  pub created_at : ℕ

pub record DecisionResponse : Type 0 where
  pub decision : Decision
  pub reason : String
  pub policy_id : Option String
  pub policy_version : Option ℕ
  pub audit_id : String
  pub review_id : Option String
  pub rewritten_arguments : Option Fields
  pub from_cache : Bool
  pub action_digest : Option String

-- `status` is a text in the source, that the code sets to one of these.
pub data ReviewStatus : Type 0 where
  review_pending review_resolved review_expired : ReviewStatus

pub record Review : Type 0 where
  pub review_id : String
  pub tenant_id : String
  pub action_id : String
  pub audit_id : String
  pub expires_at : ℕ
  pub status : ReviewStatus
  pub resolution : Option ReviewResolution
  pub resolved_by : Option String
  pub reason : Option String
  pub action_digest : String
  pub agent_subject : String
  pub service_key_id : String
  pub task_id : String
  pub policy_epoch : ℕ
  pub grant_nonce : Option String

pub record AuditEvent : Type 0 where
  pub audit_id : String
  pub tenant_id : String
  pub event_type : String
  pub actor : String
  pub payload : Json
  pub previous_hash : Option String
  pub event_hash : String
  pub created_at : ℕ
  pub sequence : ℕ

-- Here and in a grant, `issued_zone` and `expires_zone` say that the time has a time zone.
pub record SignedPolicyBundle : Type 0 where
  pub tenant_id : String
  pub policy : PolicyVersion
  pub issued_at : ℕ
  pub issued_zone : Bool
  pub expires_at : ℕ
  pub expires_zone : Bool
  pub key_id : String
  pub signature : String
  pub audience : String
  pub service_key_id : String
  pub policy_epoch : ℕ

pub record ExecutionGrant : Type 0 where
  pub nonce : String
  pub tenant_id : String
  pub task_id : String
  pub agent_subject : String
  pub service_key_id : String
  pub audience : String
  pub execution_domain : String
  pub action_digest : String
  pub authority_digest : String
  pub adapter_digest : String
  pub policy_id : String
  pub policy_epoch : ℕ
  pub issued_at : ℕ
  pub expires_at : ℕ
  pub expires_zone : Bool
  pub repeatable : Bool
  pub amount : String
  pub budget_limit : Option String
  pub key_id : String
  pub signature : String

abbrev pub same_role : Role → Role → Bool
same_role admin admin = true
same_role approver approver = true
same_role reviewer reviewer = true
same_role auditor auditor = true
same_role agent agent = true
same_role executor executor = true
same_role _ _ = false

abbrev pub same_kind : ActionKind → ActionKind → Bool
same_kind model_request model_request = true
same_kind model_response model_response = true
same_kind tool tool = true
same_kind memory_read memory_read = true
same_kind memory_write memory_write = true
same_kind filesystem filesystem = true
same_kind executor_call executor_call = true
same_kind http http = true
same_kind _ _ = false

abbrev pub is_allow : Decision → Bool
is_allow allow = true
is_allow _ = false

abbrev pub is_rewrite : Decision → Bool
is_rewrite rewrite = true
is_rewrite _ = false

abbrev pub is_escalate : Decision → Bool
is_escalate escalate = true
is_escalate _ = false

abbrev pub is_active : PolicyStatus → Bool
is_active active = true
is_active _ = false

abbrev pub is_draft : PolicyStatus → Bool
is_draft draft = true
is_draft _ = false

abbrev pub is_pending_approval : PolicyStatus → Bool
is_pending_approval pending_approval = true
is_pending_approval _ = false

abbrev pub is_rolled_back : PolicyStatus → Bool
is_rolled_back rolled_back = true
is_rolled_back _ = false

abbrev pub default_of : DefaultDecision → Decision
default_of block_default = block
default_of escalate_default = escalate
