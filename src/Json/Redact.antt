-- ===== src/Json/Redact.antt =====
-- `redact_value` of src/traceguard/supervisor/redaction.py, with redaction enabled. What the regular
-- expressions do is given: `redact_text` substitutes the secret patterns in a text, and
-- `is_sensitive` searches a key for the sensitive names.
use trace_guard.Common.{String, Bool, ◌≡◌, refl, sym, ap, ◌∙◌, if◌then◌else◌, arith}
use trace_guard.Json.Values.{
  Json, null, bool, num, str, arr, obj, Items, nil, cons, Fields, end, field,
}

abbrev pub replacement : String
replacement = "[REDACTED_SECRET]"

module _ (redact_text : String → String) (is_sensitive : String → Bool) where
  unfoldable mutual
    pub redact_value : Json → Json
    redact_value null = null
    redact_value (bool b) = bool b
    redact_value (num n) = num n
    redact_value (str s) = str (redact_text s)
    redact_value (arr xs) = arr (redact_items xs)
    redact_value (obj fs) = obj (redact_fields fs)

    pub redact_items : Items → Items
    redact_items nil = nil
    redact_items (cons x xs) = cons (redact_value x) (redact_items xs)

    pub redact_fields : Fields → Fields
    redact_fields end = end
    redact_fields (field k v fs) =
        field k (if is_sensitive k then str replacement else redact_value v) (redact_fields fs)

  -- A value with everything under a sensitive key taken out, at any depth.
  unfoldable mutual
    pub blank : Json → Json
    blank null = null
    blank (bool b) = bool b
    blank (num n) = num n
    blank (str s) = str s
    blank (arr xs) = arr (blank_items xs)
    blank (obj fs) = obj (blank_fields fs)

    pub blank_items : Items → Items
    blank_items nil = nil
    blank_items (cons x xs) = cons (blank x) (blank_items xs)

    pub blank_fields : Fields → Fields
    blank_fields end = end
    blank_fields (field k v fs) =
        field k (if is_sensitive k then null else blank v) (blank_fields fs)

  mutual
    unfolding redact_value blank

    redact-blank : (v : Json) → redact_value (blank v) ≡ redact_value v
    redact-blank null = refl
    redact-blank (bool b) = refl
    redact-blank (num n) = refl
    redact-blank (str s) = refl
    redact-blank (arr xs) = ap arr (redact_items-blank xs)
    redact-blank (obj fs) = ap obj (redact_fields-blank fs)

    redact_items-blank : (xs : Items) → redact_items (blank_items xs) ≡ redact_items xs
    redact_items-blank nil = refl
    redact_items-blank (cons x xs) = cc (redact-blank x, redact_items-blank xs)

    redact_fields-blank : (fs : Fields) → redact_fields (blank_fields fs) ≡ redact_fields fs
    redact_fields-blank end = refl
    redact_fields-blank (field k v fs) = ground (arith, redact-blank v, redact_fields-blank fs)

  -- What stands under a sensitive key, however deep, has no influence on the redacted value: two
  -- values that agree outside the sensitive keys are redacted to the same value.
  pub redact_hides : (v w : Json) → blank v ≡ blank w → redact_value v ≡ redact_value w
  redact_hides v w e = sym (redact-blank v) ∙ ap redact_value e ∙ redact-blank w
