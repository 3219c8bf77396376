-- ===== src/Policy/Tests.antt =====
-- Runs of the models of src/traceguard/policy/network.py and src/traceguard/policy/matching.py on
-- concrete input, with libraries that know a few texts.
use text.Mathlib.TextBridge.{IsPrefix}
use Prim.Native.String.{◌++◌}
use trace_guard.Common.{
  String, ◌≡◌, refl, true, false, ◌⊎◌, Option, none, some, [], ◌∷◌, ◌==◌, any, if◌then◌else◌, ok,
}
use trace_guard.Json.{Json, num, str, field, end}
use trace_guard.Control.Models.{
  tool, allow, block, draft, ActionRequest, RuleMatch, PolicyRule, PolicyVersion, block_default,
}
use trace_guard.Policy.Network.{
  UrlLibrary, SplitUrl, Destination, destination, target_within_scope, covers, build, check_host,
  check_parts, strip_slashes,
}
use trace_guard.Policy.Network.Scope.{scope_confines, IsPlain}
use trace_guard.Policy.Matching.{MatchLibrary, matches, target_passes, outranked, select_rule}
use trace_guard.Policy.Matching.Selection.{select-IsStrictest, IsStrictest}

abbrev web : String → String → SplitUrl
web host path = record {
  scheme = "https";
  hostname = some host;
  port = none;
  username = none;
  password = none;
  path = path;
  query = "";
  fragment = "";
}

abbrev split : String → Option SplitUrl
split url =
    if url == "https://api.example/v1/"
    then some (web "api.example" "/v1/")
    else if url == "https://api.example/v1/users"
    then some (web "api.example" "/v1/users")
    else if url == "https://api.example/v1/../admin"
    then some (web "api.example" "/v1/../admin")
    else if url == "https://api.example/v12"
    then some (web "api.example" "/v12")
    else none

abbrev pub known_urls : UrlLibrary
known_urls = record {
  urlsplit = split;
  idna = λ host. some host;
  is_ipv6 = λ host. false;
  is_hostname = λ host. host == "api.example";
  unquote = λ path. path;
}

below_passes :
    target_within_scope known_urls "https://api.example/v1/" "https://api.example/v1/users" ≡ true
unfolding target_within_scope destination check_parts check_host build covers
below_passes = refl

beside_fails :
    target_within_scope known_urls "https://api.example/v1/" "https://api.example/v12" ≡ false
unfolding target_within_scope destination check_parts check_host build covers
beside_fails = refl

above_fails :
    target_within_scope known_urls "https://api.example/v1/" "https://api.example/v1/../admin"
    ≡ false
unfolding target_within_scope destination check_parts check_host build covers
above_fails = refl

scope_confines_example :
    (a : Destination) × (b : Destination) × (destination known_urls "https://api.example/v1/"
      ≡ ok a)
    × (destination known_urls "https://api.example/v1/users" ≡ ok b)
    × IsPlain known_urls a
    × IsPlain known_urls b
    × (a.scheme ≡ b.scheme)
    × (a.host ≡ b.host)
    × (a.port ≡ b.port)
    × (a.query ≡ b.query)
    × ((b.path ≡ a.path) ⊎ IsPrefix (strip_slashes a.path ++ "/") b.path)
scope_confines_example =
    scope_confines known_urls "https://api.example/v1/" "https://api.example/v1/users" below_passes

abbrev pub texts_only : Json → Option String
texts_only (str s) = some ("\"" ++ s)
texts_only (num n) = some n
texts_only _ = none

abbrev pub known_texts : MatchLibrary
known_texts = record {
  urls = known_urls;
  dumps = texts_only;
  has_instructions = λ s. s == "ignore previous instructions";
}

abbrev pub any_action : RuleMatch
any_action = record {
  kind = none;
  operation = none;
  target_prefix = none;
  argument_equals = [];
  contains_untrusted_instructions = none;
}

abbrev pub rule_allowing : String → PolicyRule
rule_allowing operation = record {
  rule_id = "allow";
  name = "allow";
  priority = 900;
  match = record any_action { operation = some operation };
  decision = allow;
  reason = "read only";
  rewrite_payload = none;
  cache_eligible = false;
}

abbrev pub rule_blocking : String → PolicyRule
rule_blocking query = record {
  rule_id = "block";
  name = "block";
  priority = 1;
  match = record any_action { kind = some tool; argument_equals = ("query", str query) ∷ [] };
  decision = block;
  reason = "forbidden query";
  rewrite_payload = none;
  cache_eligible = false;
}

abbrev pub search : String → ActionRequest
search query = record {
  tenant_id = "acme";
  idempotency_key = "idempotency-1";
  task_id = "task-1";
  action_id = "action-1";
  kind = tool;
  operation = "search";
  target = none;
  arguments = field "query" (str query) end;
  provenance = [];
  evidence = [];
  requested_at = 0;
}

abbrev pub two_rules : PolicyVersion
two_rules = record {
  policy_id = "policy-1";
  tenant_id = "acme";
  version = 1;
  contents = record {
    name = "searches";
    rules = rule_allowing "search" ∷ rule_blocking "secrets" ∷ [];
    default_decision = block_default;
  };
  status = draft;
  created_by = "alice";
  approved_by = none;
  activated_at = none;
  created_at = 0;
}

block_outranks :
    select_rule known_texts two_rules (search "secrets") ≡ some (rule_blocking "secrets")
unfolding select_rule outranked matches target_passes
block_outranks = refl

allow_selected :
    select_rule known_texts two_rules (search "weather") ≡ some (rule_allowing "search")
unfolding select_rule outranked matches target_passes
allow_selected = refl

select-IsStrictest_example :
    ((r : PolicyRule) × (select_rule known_texts two_rules (search "secrets") ≡ some r)
      × IsStrictest known_texts (search "secrets") two_rules r)
    ⊎ ((select_rule known_texts two_rules (search "secrets") ≡ none)
        × (any (λ r. matches known_texts r.match (search "secrets")) two_rules.contents.rules
            ≡ false))
select-IsStrictest_example = select-IsStrictest known_texts (search "secrets") two_rules
