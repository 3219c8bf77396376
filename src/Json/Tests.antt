-- ===== src/Json/Tests.antt =====
-- Redaction (src/traceguard/supervisor/redaction.py) and limits (src/traceguard/limits.py) of
-- concrete values.
use trace_guard.Common.{
  ℕ, ◌≤◌, true, Option, some, ok, err, value_error, String, ◌≡◌, refl, Bool, ◌||◌, ◌==◌,
  if◌then◌else◌,
}
use trace_guard.Json.Values.{Json, num, str, obj, end, field}
use trace_guard.Json.Limits.{walk, validate_json, nodes, is_shallow, validate_json_bounds}
use trace_guard.Json.Redact.{redact_value, replacement, blank, redact_hides}

abbrev cover_token : String → String
cover_token s = if s == "sk-12345" then replacement else s

abbrev names_secret : String → Bool
names_secret k = k == "password" || k == "api_key"

abbrev login : String → Json
login password = obj (
    field "user" (str "alice") (
      field "auth" (obj (field "password" (str password) end))
        (field "note" (str "sk-12345") (field "tries" (num "1") end))))

login_redacted :
    redact_value cover_token names_secret (login "hunter2")
    ≡ obj (
        field "user" (str "alice") (
          field "auth"
            (obj (field "password" (str replacement) end))
            (field "note" (str replacement) (field "tries" (num "1") end))))
unfolding redact_value
login_redacted = refl

same_outside :
    blank cover_token names_secret (login "hunter2")
    ≡ blank cover_token names_secret (login "swordfish")
unfolding blank
same_outside = refl

redact_hides_example :
    redact_value cover_token names_secret (login "hunter2")
    ≡ redact_value cover_token names_secret (login "swordfish")
redact_hides_example =
    redact_hides cover_token names_secret (login "hunter2") (login "swordfish") same_outside

abbrev few_bytes : Json → Option ℕ
few_bytes v = some 60

login_accepted : validate_json 100 10 2 few_bytes (login "hunter2") ≡ ok tt
unfolding validate_json walk
login_accepted = refl

login_too_deep :
    validate_json 100 10 1 few_bytes (login "hunter2")
    ≡ err (value_error "JSON depth or node budget exceeded")
unfolding validate_json walk
login_too_deep = refl

validate_json_bounds_example :
    (nodes (login "hunter2") ≤ 10)
    × (is_shallow 2 0 (login "hunter2") ≡ true)
    × (length : ℕ) × (few_bytes (login "hunter2") ≡ some length)
    × (length ≤ 100)
validate_json_bounds_example =
    validate_json_bounds 100 10 2 few_bytes (login "hunter2") login_accepted
