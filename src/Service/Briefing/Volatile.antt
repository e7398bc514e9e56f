-- ===== src/Service/Briefing/Volatile.antt =====
-- What internal/service/briefing.go's `equalBriefingValue` compares: all but the volatile fields.
use mcp_grand_lyon.Base.{
  String, Bool, true, false, ◌&&◌, ◌≡◌, ◌↔◌, refl, ap, and-eq-true, ◌∙◌, arith, Option, none, some,
  ◌=ₛ◌, eq_iff,
}
use mathlib.Core.Option
use mcp_grand_lyon.Service.Dispatch.{
  Json, null, bool, number, text, array, object, Items, no_items, item, Members, no_members, member,
}
use mcp_grand_lyon.Service.Briefing.Values.{
  lookup, string_value, is_volatile, remove_volatile, remove_items, remove_members, same_json,
  same_bool, same_items, same_members, equal_value,
}

bool_eq : (b c : Bool) → same_bool b c ≡ true → b ≡ c
bool_eq true c h = ground arith
bool_eq false c h = ground arith

mutual
  unfolding same_json

  same_json-eq : (v w : Json) → same_json v w ≡ true → v ≡ w
  same_json-eq null null h = refl
  same_json-eq null (bool c) h = cc
  same_json-eq null (number t) h = cc
  same_json-eq null (text t) h = cc
  same_json-eq null (array ys) h = cc
  same_json-eq null (object ns) h = cc
  same_json-eq (bool b) null h = cc
  same_json-eq (bool b) (bool c) h = ground (arith, bool_eq b c)
  same_json-eq (bool b) (number t) h = cc
  same_json-eq (bool b) (text t) h = cc
  same_json-eq (bool b) (array ys) h = cc
  same_json-eq (bool b) (object ns) h = cc
  same_json-eq (number s) null h = cc
  same_json-eq (number s) (bool c) h = cc
  same_json-eq (number s) (number t) h = ground (arith, eq_iff s t)
  same_json-eq (number s) (text t) h = cc
  same_json-eq (number s) (array ys) h = cc
  same_json-eq (number s) (object ns) h = cc
  same_json-eq (text s) null h = cc
  same_json-eq (text s) (bool c) h = cc
  same_json-eq (text s) (number t) h = cc
  same_json-eq (text s) (text t) h = ground (arith, eq_iff s t)
  same_json-eq (text s) (array ys) h = cc
  same_json-eq (text s) (object ns) h = cc
  same_json-eq (array xs) null h = cc
  same_json-eq (array xs) (bool c) h = cc
  same_json-eq (array xs) (number t) h = cc
  same_json-eq (array xs) (text t) h = cc
  same_json-eq (array xs) (array ys) h = ap array (same_items-eq xs ys h)
  same_json-eq (array xs) (object ns) h = cc
  same_json-eq (object ms) null h = cc
  same_json-eq (object ms) (bool c) h = cc
  same_json-eq (object ms) (number t) h = cc
  same_json-eq (object ms) (text t) h = cc
  same_json-eq (object ms) (array ys) h = cc
  same_json-eq (object ms) (object ns) h = ap object (same_members-eq ms ns h)

  same_items-eq : (v w : Items) → same_items v w ≡ true → v ≡ w
  same_items-eq no_items no_items h = refl
  same_items-eq (item x xs) (item y ys) h =
      let (a, b) = and-eq-true (same_json x y) (same_items xs ys) h in
      let e = same_json-eq x y a in let f = same_items-eq xs ys b in cc
  same_items-eq no_items (item y ys) h = cc
  same_items-eq (item x xs) no_items h = cc

  same_members-eq : (v w : Members) → same_members v w ≡ true → v ≡ w
  same_members-eq no_members no_members h = refl
  same_members-eq (member k v ms) (member l w ns) h =
      let (b, d) = and-eq-true (k =ₛ l && same_json v w) (same_members ms ns) h in
      let (a, c) = and-eq-true (k =ₛ l) (same_json v w) b in
      let e = (eq_iff k l).0 a in
      let f = same_json-eq v w c in let g = same_members-eq ms ns d in cc
  same_members-eq no_members (member k v ms) h = cc
  same_members-eq (member k v ms) no_members h = cc

mutual
  unfolding same_json

  same_json_refl : (v : Json) → same_json v v ≡ true
  same_json_refl null = refl
  same_json_refl (bool true) = refl
  same_json_refl (bool false) = refl
  same_json_refl (number s) = ground (arith, eq_iff s s)
  same_json_refl (text s) = ground (arith, eq_iff s s)
  same_json_refl (array xs) = same_items_refl xs
  same_json_refl (object ms) = same_members_refl ms

  same_items_refl : (xs : Items) → same_items xs xs ≡ true
  same_items_refl no_items = refl
  same_items_refl (item x xs) = ground (arith, same_json_refl x, same_items_refl xs)

  pub same_members_refl : (ms : Members) → same_members ms ms ≡ true
  same_members_refl no_members = refl
  same_members_refl (member k v ms) =
      ground (arith, eq_iff k k, same_json_refl v, same_members_refl ms)

-- Two facts count as equal exactly if they are the same value once the volatile fields are removed,
-- at any depth.
pub equal_value_iff :
    (old new : Members) → (equal_value old new ≡ true) ↔ (remove_members old ≡ remove_members new)
unfolding equal_value
equal_value_iff old new = (
  same_members-eq (remove_members old) (remove_members new),
  λ e. rw e (same_members_refl (remove_members new)),
)

-- A key that is not volatile is found as before.
pub lookup-remove_members :
    (key : String) (ms : Members)
    → is_volatile key ≡ false
    → lookup key (remove_members ms) ≡ Option.map remove_volatile (lookup key ms)
unfolding lookup remove_volatile
lookup-remove_members key no_members h = refl
lookup-remove_members key (member k v rest) h =
    ground (arith, eq_iff k key, lookup-remove_members key rest h)

pub string_value-remove_volatile :
    (o : Option Json) → string_value (Option.map remove_volatile o) ≡ string_value o
unfolding string_value remove_volatile
string_value-remove_volatile none = refl
string_value-remove_volatile (some null) = refl
string_value-remove_volatile (some (bool b)) = refl
string_value-remove_volatile (some (number s)) = refl
string_value-remove_volatile (some (text s)) = refl
string_value-remove_volatile (some (array xs)) = refl
string_value-remove_volatile (some (object ms)) = refl

-- A text field that is not volatile reads as before.
pub string_field-remove_members :
    (key : String) (ms : Members)
    → is_volatile key ≡ false
    → string_value (lookup key (remove_members ms)) ≡ string_value (lookup key ms)
string_field-remove_members key ms h =
    ap string_value (lookup-remove_members key ms h) ∙ string_value-remove_volatile (lookup key ms)

mutual
  unfolding remove_volatile

  remove_volatile_idempotent : (v : Json) → remove_volatile (remove_volatile v) ≡ remove_volatile v
  remove_volatile_idempotent null = refl
  remove_volatile_idempotent (bool b) = refl
  remove_volatile_idempotent (number s) = refl
  remove_volatile_idempotent (text s) = refl
  remove_volatile_idempotent (array xs) = ap array (remove_items_idempotent xs)
  remove_volatile_idempotent (object ms) = ap object (remove_members_idempotent ms)

  remove_items_idempotent : (xs : Items) → remove_items (remove_items xs) ≡ remove_items xs
  remove_items_idempotent no_items = refl
  remove_items_idempotent (item x xs) =
      ground (arith, remove_volatile_idempotent x, remove_items_idempotent xs)

  pub remove_members_idempotent :
      (ms : Members) → remove_members (remove_members ms) ≡ remove_members ms
  remove_members_idempotent no_members = refl
  remove_members_idempotent (member k v rest) =
      ground (arith, remove_volatile_idempotent v, remove_members_idempotent rest)
