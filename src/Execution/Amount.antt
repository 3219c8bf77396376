-- ===== src/Execution/Amount.antt =====
-- `payment_amount` of src/traceguard/control/execution.py. `Decimal(str(value))` is given, `none` where
-- it raises, is infinite or is negative.
use trace_guard.Common.{
  ℕ, String, Bool, ◌||◌, not, Option, none, some, ◌==◌, if◌then◌else◌, Result, ok, err, value_error,
}
use trace_guard.Json.{Json, bool, get_field}
use trace_guard.Control.Models.{ActionRequest}

-- A decimal, with its `str`, which keeps trailing zeros, and its value in the smallest unit.
pub record Decimal : Type 0 where
  pub text : String
  pub units : ℕ

-- `Decimal(0)`
abbrev pub no_amount : Decimal
no_amount = record { text = "0"; units = 0 }

abbrev pub is_payment : String → Bool
is_payment operation = operation == "send_money" || operation == "schedule_transaction"

abbrev amount_or_error : Option Decimal → Result Decimal
amount_or_error none = err (value_error "invalid payment amount")
amount_or_error (some d) = ok d

abbrev amount_of : (Json → Option Decimal) → Json → Result Decimal
amount_of parse_amount (bool b) = err (value_error "invalid payment amount")
amount_of parse_amount value = amount_or_error (parse_amount value)

unfoldable pub payment_amount : (Json → Option Decimal) → ActionRequest → Result Decimal
payment_amount parse_amount action =
    if not (is_payment action.operation)
    then ok no_amount
    else amount_of parse_amount (get_field "amount" action.arguments)
