-- ===== src/Json/Values.antt =====
-- JSON values, and the lookup `dict.get`.
use trace_guard.Common.{String, Bool, ◌==◌, if◌then◌else◌}

mutual
  pub data Json : Type 0 where
    null : Json
    bool : Bool → Json
    num : String → Json
    str : String → Json
    arr : Items → Json
    obj : Fields → Json

  pub data Items : Type 0 where
    nil : Items
    cons : Json → Items → Items

  pub data Fields : Type 0 where
    end : Fields
    field : String → Json → Fields → Fields

-- `fields.get(key)`, with `None` for a missing key
abbrev pub get_field : String → Fields → Json
get_field key end = null
get_field key (field k v rest) = if k == key then v else get_field key rest
