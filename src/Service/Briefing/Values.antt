-- ===== src/Service/Briefing/Values.antt =====
-- internal/service/briefing.go: `briefingStringValue`, `removeBriefingVolatileFields` and
-- `equalBriefingValue`. A Go map is its members in the order of the keys, without repeats, as
-- encoding/json prints it, so that `reflect.DeepEqual` of two decoded values is equality of their
-- members in order, and the encoding with the decoding after it gives the value back.
use mcp_grand_lyon.Base.{
  String, Bool, true, false, ◌&&◌, ◌||◌, not, if◌then◌else◌, Option, none, some, ◌=ₛ◌,
}
use mcp_grand_lyon.Base.Text.{trim_string}
use mcp_grand_lyon.Service.Dispatch.{
  Json, null, bool, number, text, array, object, Items, no_items, item, Members, no_members, member,
}

-- `values[key]`, nothing where the key is missing.
unfoldable pub lookup : String → Members → Option Json
lookup key no_members = none
lookup key (member k v rest) = let later = lookup key rest in if k =ₛ key then some v else later

unfoldable pub string_value : Option Json → String
string_value (some (text s)) = trim_string s
string_value _ = ""

unfoldable pub is_volatile : String → Bool
is_volatile key =
    key =ₛ "age_seconds"
    || key =ₛ "distance_m"
    || key =ₛ "generated_at"
    || key =ₛ "observed_at"
    || key =ₛ "request_id"
    || key =ₛ "retrieved_at"

unfoldable mutual
  pub remove_volatile : Json → Json
  remove_volatile null = null
  remove_volatile (bool b) = bool b
  remove_volatile (number s) = number s
  remove_volatile (text s) = text s
  remove_volatile (array xs) = array (remove_items xs)
  remove_volatile (object ms) = object (remove_members ms)

  pub remove_items : Items → Items
  remove_items no_items = no_items
  remove_items (item x xs) = item (remove_volatile x) (remove_items xs)

  pub remove_members : Members → Members
  remove_members no_members = no_members
  remove_members (member k v rest) =
      let kept = remove_volatile v in
      let later = remove_members rest in if is_volatile k then later else member k kept later

-- `reflect.DeepEqual` on decoded values.
abbrev pub same_bool : Bool → Bool → Bool
same_bool true b = b
same_bool false b = not b

unfoldable mutual
  pub same_json : Json → Json → Bool
  same_json null null = true
  same_json (bool b) (bool c) = same_bool b c
  same_json (number s) (number t) = s =ₛ t
  same_json (text s) (text t) = s =ₛ t
  same_json (array xs) (array ys) = same_items xs ys
  same_json (object ms) (object ns) = same_members ms ns
  same_json _ _ = false

  pub same_items : Items → Items → Bool
  same_items no_items no_items = true
  same_items (item x xs) (item y ys) = same_json x y && same_items xs ys
  same_items _ _ = false

  pub same_members : Members → Members → Bool
  same_members no_members no_members = true
  same_members (member k v ms) (member l w ns) = k =ₛ l && same_json v w && same_members ms ns
  same_members _ _ = false

unfoldable pub equal_value : Members → Members → Bool
equal_value old new = same_members (remove_members old) (remove_members new)
