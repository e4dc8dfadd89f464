-- ===== src/Pal/Json.antt =====
-- What `json.loads` gives to app/pal.py. The keys of an object are distinct: of equal keys `json.loads` keeps the last.
use cert_generator.Prelude.{
  ℕ, Bool, Option, none, some, List, [], ◌∷◌, Text, text_eq, if◌then◌else◌,
}

mutual
  pub data Json : Type 0 where
    null : Json
    boolean : Bool → Json
    whole : ℕ → Json  -- an `int` that is not negative
    below_zero : ℕ → Json  -- the `int` -(n + 1)
    fraction : Text → Json  -- a `float`, by its `repr`
    text : Text → Json
    array : Items → Json
    object : Fields → Json

  pub data Items : Type 0 where
    no_items : Items
    item : Json → Items → Items

  pub data Fields : Type 0 where
    no_fields : Fields
    field : Text → Json → Fields → Fields

abbrev pub items : Items → List Json
items no_items = []
items (item j js) = j ∷ items js

abbrev pub keys : Fields → List Text
keys no_fields = []
keys (field name j fs) = name ∷ keys fs

-- `d.get(key)`
abbrev pub get : Text → Fields → Option Json
get key no_fields = none
get key (field name j fs) = if text_eq name key then some j else get key fs

-- `d.get(key, default)`
abbrev pub get_or : Text → Json → Fields → Json
get_or key default fs = elim (get key fs) [ none ↦ default | some j ↦ j ]
