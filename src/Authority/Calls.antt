-- ===== src/Authority/Calls.antt =====
-- The contracts of src/traceguard/types.py that the kernel reads. `confidence` is a number of
-- hundredths.
use trace_guard.Common.{ℕ, String, Bool, Option, List, Dict, ℤ}
use trace_guard.Json.{Json, Fields}
use trace_guard.Control.Models.{Decision}

-- A Python number that JSON can hold: an int, or a float by its `repr`.
pub data Number : Type 0 where
  whole : ℤ → Number
  floating : String → Number

pub data GoalRelevance : Type 0 where
  uncertain irrelevant weak strong : GoalRelevance

pub data GoalNecessity : Type 0 where
  uncertain unnecessary helpful necessary : GoalNecessity

pub data RiskLevel : Type 0 where
  low medium high critical : RiskLevel

pub data TrustLabel : Type 0 where
  trusted_system user_input trusted_tool untrusted_document untrusted_tool agent_generated :
      TrustLabel

pub data ExecutionTarget : Type 0 where
  default_target container simulated : ExecutionTarget

pub record ToolCall : Type 0 where
  pub task_id : String
  pub step_id : ℕ
  pub tool_name : String
  pub arguments : Fields
  pub consumed_observation_ids : List String
  pub requested_resources : List String
  pub call_id : String

pub record Observation : Type 0 where
  pub content : String
  pub source_type : String
  pub source_id : String
  pub trust : TrustLabel
  pub provenance_chain : List String
  pub may_contain_instructions : Bool
  pub observation_id : String

pub data EnforcementMode : Type 0 where
  research strict : EnforcementMode

pub record TaskAuthority : Type 0 where
  pub allowed_tools : Option (List String)
  pub repeatable_tools : List String
  pub argument_values : Dict (Dict Json)
  pub resource_values : Dict (Dict (List Json))
  pub enforcement_mode : EnforcementMode
  pub generated_fields : Dict (List String)
  pub delegated_fields : Dict (Dict (List String))
  pub max_amount : Option Number
  pub prohibited_content : List String
  pub approved_conditions : List String

pub record SupervisorOutput : Type 0 where
  pub decision : Decision
  pub risk : RiskLevel
  pub confidence : ℕ
  pub policy_violation : Bool
  pub goal_relevance : GoalRelevance
  pub goal_necessity : GoalNecessity
  pub reason : String
  pub matched_rules : List String
  pub rewritten_call : Option ToolCall
  pub execution_target : Option ExecutionTarget
  pub container_profile : Option String
  pub provider_metadata : Fields
