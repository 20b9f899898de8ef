-- ===== src/Shared/StableJson.antt =====
-- JSON values, and their text with the members of an object in the order of their keys, as
-- `JSON.stringify` prints them once they were sorted. Keys that are array indices, which JavaScript
-- lists first whatever the order, are not in the values that the source prints.
use software_blueprint_hub.Shared.{ℕ, String, Bool, true, false, List, [], ◌∷◌, map}
use software_blueprint_hub.Shared.Sorting.{sort}
use software_blueprint_hub.Shared.Json.{quote, member, object, array}
use software_blueprint_hub.Shared.Decimal.{decimal}

mutual
  pub data Json : Type 0 where
    json_null : Json
    json_bool : Bool → Json
    json_number : ℕ → Json
    json_text : String → Json
    json_array : Items → Json
    json_object : Members → Json

  pub data Items : Type 0 where
    no_items : Items
    item : Json → Items → Items

  pub data Members : Type 0 where
    no_members : Members
    named : String → Json → Members → Members

abbrev pub bool_text : Bool → String
bool_text true = "true"
bool_text false = "false"

module _ (le : String → String → Bool) where
  abbrev pub key_le : String × String → String × String → Bool
  key_le a b = le a.0 b.0

  abbrev pub print_members : List (String × String) → List String
  print_members members = map (λ m. member m.0 m.1) (sort key_le members)

  unfoldable mutual
    unfolding member sort quote array object decimal

    pub stable_json : Json → String
    stable_json json_null = "null"
    stable_json (json_bool b) = bool_text b
    stable_json (json_number n) = decimal n
    stable_json (json_text s) = quote s
    stable_json (json_array items) = array (stable_items items)
    stable_json (json_object members) = object (print_members (stable_members members))

    pub stable_items : Items → List String
    stable_items no_items = []
    stable_items (item j js) = stable_json j ∷ stable_items js

    pub stable_members : Members → List (String × String)
    stable_members no_members = []
    stable_members (named key j ms) = (key, stable_json j) ∷ stable_members ms

abbrev pub items : List Json → Items
items [] = no_items
items (j ∷ js) = item j (items js)

abbrev pub texts_json : List String → Json
texts_json texts = json_array (items (map json_text texts))
