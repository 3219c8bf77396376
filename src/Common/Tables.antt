-- ===== src/Common/Tables.antt =====
-- Python's dicts with text keys as functions, and sets as tests: what the program reads of a dict
-- is `get`, and what it writes is one key at a time.
use Prim.Native.String.{String}
use mathlib.Core.Path.{◌≡◌}
use mathlib.Core.Logic.{◌≢◌}
use text.Mathlib.Text.{◌==◌}
use text.Mathlib.TextEquality.{eq_iff}
use text.Mathlib.TextPositions.{eq_refl}
use native.Mathlib.Omega.{arith}
use trace_guard.Common.Tests.{if◌then◌else◌}

abbrev pub Table {ℓ} : Type ℓ → Type ℓ
Table V = String → V

module _ {ℓ} {V : Type ℓ} where
  -- `d[k] = v`
  abbrev pub put : Table V → String → V → Table V
  put d k v j = if k == j then v else d j

  pub put_self : (d : Table V) (k : String) (v : V) → put d k v k ≡ v
  put_self d k v = rw (eq_refl k)

  pub put_ne : (d : Table V) (k j : String) (v : V) → k ≢ j → put d k v j ≡ d j
  put_ne d k j v h = ground (arith, eq_iff k j)
