-- ===== src/Service/Briefing/Changes.antt =====
-- internal/service/briefing.go: `compareBriefingFacts` and what it calls, down to one item's change.
-- A section is one of the five that the loop goes through, a Go map of items an association list by
-- distinct keys. A stored text is its bytes. encoding/json's encoder, RFC 3339's parser and
-- `fmt.Sprint` are parameters; an `eligible` that is an array or an object, on which Go's comparison
-- panics, is compared as a value.
pub mod Diff
pub mod Complete
pub mod Unchanged
mod Tests
use mcp_grand_lyon.Base.{
  ℕ, String, Bool, true, false, ◌&&◌, ◌||◌, not, if◌then◌else◌, Option, none, some, List, [], ◌∷◌,
  ◌++◌, map, ◌=ₛ◌, any, take, length, ltb, value_or,
}
use Prim.Native.String.{◌++◌ as ◌+ₛ◌}
use mcp_grand_lyon.Base.Text.{codes}
use mcp_grand_lyon.Base.TextOrder.{text_lt}
use mcp_grand_lyon.Base.Sort.{sort_stable}
use mcp_grand_lyon.Model.Envelope.{Time}
use mcp_grand_lyon.Service.Dispatch.{
  Json, null, bool, number, text, array, object, Items, no_items, item, Members, no_members, member,
}
use mcp_grand_lyon.Service.Briefing.Values.{lookup, string_value, same_json, equal_value}

pub data Section : Type 0 where
  departures velov journey mobility environment : Section

abbrev pub section_name : Section → String
section_name departures = "departures"
section_name velov = "velov"
section_name journey = "journey"
section_name mobility = "mobility"
section_name environment = "environment"

abbrev pub sections : List Section
sections = departures ∷ velov ∷ journey ∷ mobility ∷ environment ∷ []

-- The member of a section's data that lists its items.
abbrev pub items_field : Section → String
items_field departures = "departures"
items_field velov = "stations"
items_field journey = "options"
items_field mobility = "alerts"
items_field environment = "indicators"

abbrev pub field : String → Members → String
field key ms = string_value (lookup key ms)

abbrev when_of : String → String → String
when_of expected scheduled = if expected =ₛ "" then scheduled else expected

unfoldable pub item_key : Section → Members → String
item_key departures ms =
    field "line_name" ms
    +ₛ "|"
    +ₛ field "destination" ms
    +ₛ "|"
    +ₛ when_of (field "expected_at" ms) (field "scheduled_at" ms)
item_key velov ms = field "id" ms
item_key journey ms = field "mode" ms +ₛ "|" +ₛ field "summary" ms
item_key mobility ms = field "id" ms
item_key environment ms = field "indicator" ms

abbrev pub Entries : Type 0
Entries = List (String × Members)

unfoldable pub put_item : String → Members → Entries → Entries
put_item key ms [] = (key, ms) ∷ []
put_item key ms ((k, v) ∷ es) =
    let later = put_item key ms es in if k =ₛ key then (key, ms) ∷ es else (k, v) ∷ later

unfoldable pub find_item : String → Entries → Option Members
find_item key [] = none
find_item key ((k, v) ∷ es) = let later = find_item key es in if k =ₛ key then some v else later

abbrev pub with_item : String → Members → Entries → Entries
with_item key ms es = if key =ₛ "" then es else put_item key ms es

-- The loop over the items; one that is not an object is skipped, and so is one without a key.
unfoldable pub collect_items : Section → Items → Entries → Entries
unfolding put_item
collect_items section no_items es = es
collect_items section (item (object ms) xs) es =
    collect_items section xs (with_item (item_key section ms) ms es)
collect_items section (item _ xs) es = collect_items section xs es

abbrev pub listed : Section → Option Json → Entries
listed section (some (array xs)) = collect_items section xs []
listed section _ = []

unfoldable pub briefing_items : Section → Json → Entries
briefing_items section (object ms) = listed section (lookup (items_field section) ms)
briefing_items section _ = []

-- `keys[key] = true`.
abbrev pub has_name : String → List String → Bool
has_name key ks = any (λ k. k =ₛ key) ks

unfoldable pub add_names : Entries → List String → List String
add_names [] ks = ks
add_names ((k, v) ∷ es) ks =
    let later = add_names es ks in if has_name k later then later else k ∷ later

abbrev pub name_less : String → String → Bool
name_less k l = text_lt (codes k) (codes l)

unfoldable pub ordered_names : Entries → Entries → List String
unfolding add_names
ordered_names old new = sort_stable name_less (add_names new (add_names old []))

pub record BriefingChange : Type 0 where
  pub key : String
  pub kind : String
  pub message : String
  pub previous : Option (List ℕ)
  pub current : Option (List ℕ)
  pub source : Option String
  pub observed_at : Option Time

pub record Codec : Type 0 where
  pub encode : Json → List ℕ
  pub parse_time : String → Option Time
  pub sprint : Json → String

abbrev display : String → String
display value = if value =ₛ "" then "unknown" else value

abbrev is_true : Option Json → Bool
is_true (some (bool true)) = true
is_true _ = false

abbrev has_availability : Section → Bool
has_availability journey = true
has_availability velov = true
has_availability _ = false

abbrev general_message : Section → Members → Members → String
general_message departures old new =
    if is_true (lookup "cancelled" new) && not (is_true (lookup "cancelled" old))
    then "Departure was cancelled."
    else "Departure timing or status changed."
general_message mobility old new = "Disruption information changed."
general_message _ old new = "Value changed."

abbrev pub maximum_changes : ℕ
maximum_changes = 50

-- The changes, and whether the list was cut.
abbrev pub cut_changes : List BriefingChange → List BriefingChange × Bool
cut_changes cs =
    let cut = ltb maximum_changes (length cs) in (if cut then take maximum_changes cs else cs, cut)

module _ (codec : Codec) where
  unfoldable pub update_message : Section → Members → Members → String
  update_message section old new =
      let was = field "availability" old in
      let is = field "availability" new in
      let eligible = value_or (lookup "eligible" new) null in
      let eligible_before = value_or (lookup "eligible" old) null in
      if has_availability section && not (was =ₛ "" && is =ₛ "")
      then "Availability changed from " +ₛ display was +ₛ " to " +ₛ display is +ₛ "."
      else if has_availability section && not (same_json eligible_before eligible)
      then "Eligibility changed from "
        +ₛ codec.sprint eligible_before
        +ₛ " to "
        +ₛ codec.sprint eligible
        +ₛ "."
      else general_message section old new

  abbrev value_text : Json → List ℕ
  value_text v = take 240 (codec.encode v)

  abbrev shown : Option Members → Option (List ℕ)
  shown none = none
  shown (some ms) = some (value_text (object ms))

  abbrev observed_of : Option Members → Option Time
  observed_of none = none
  observed_of (some ms) =
      let raw = field "observed_at" ms in if raw =ₛ "" then none else codec.parse_time raw

  abbrev first_time : Option Time → Option Time → Option Time
  first_time (some t) other = some t
  first_time none other = other

  -- A nil map has no members.
  abbrev members_of : Option Members → Members
  members_of o = value_or o no_members

  unfoldable pub briefing_change :
      String → String → Section → Option Members → Option Members → BriefingChange
  briefing_change key kind section old new = record {
    key = key;
    kind = kind;
    message =
        if kind =ₛ "added"
        then "Added " +ₛ key +ₛ "."
        else if kind =ₛ "removed"
        then "Removed " +ₛ key +ₛ "."
        else update_message section (members_of old) (members_of new);
    previous = shown old;
    current = shown new;
    source = some (section_name section);
    observed_at = first_time (observed_of new) (observed_of old);
  }

  abbrev change_key : Section → String → String
  change_key section key = section_name section +ₛ ":" +ₛ key

  -- The switch on one key: whether the item was there, and whether it is.
  unfoldable pub change_at :
      Section → String → Option Members → Option Members → Option BriefingChange
  change_at section key none none = none
  change_at section key (some old) none =
      some (briefing_change (change_key section key) "removed" section (some old) none)
  change_at section key none (some new) =
      some (briefing_change (change_key section key) "added" section none (some new))
  change_at section key (some old) (some new) =
      if equal_value old new
      then none
      else some (briefing_change (change_key section key) "updated" section (some old) (some new))

  abbrev prepend : Option BriefingChange → List BriefingChange → List BriefingChange
  prepend none cs = cs
  prepend (some c) cs = c ∷ cs

  unfoldable pub gather_changes :
      (String → Option BriefingChange) → List String → List BriefingChange
  gather_changes f [] = []
  gather_changes f (k ∷ ks) = prepend (f k) (gather_changes f ks)

  unfoldable pub item_changes : Section → Entries → Entries → List BriefingChange
  item_changes section old new =
      gather_changes (λ key. change_at section key (find_item key old) (find_item key new))
        (ordered_names old new)

  abbrev evidence_lost : Section → Json → BriefingChange
  evidence_lost section old = record {
    key = section_name section;
    kind = "evidence_lost";
    message = "Evidence for " +ₛ section_name section +ₛ " is no longer available.";
    previous = some (value_text old);
    current = none;
    source = some (section_name section);
    observed_at = none;
  }

  unfoldable pub section_changes : Section → Option Json → Option Json → List BriefingChange
  section_changes section (some old) none = evidence_lost section old ∷ []
  section_changes section (some old) (some new) =
      item_changes section (briefing_items section old) (briefing_items section new)
  section_changes section none _ = []

  unfoldable pub all_changes : List Section → Members → Members → List BriefingChange
  all_changes [] old new = []
  all_changes (s ∷ ss) old new =
      section_changes s (lookup (section_name s) old) (lookup (section_name s) new)
      ++ all_changes ss old new

  abbrev pub of_facts : Option Json → Members → List BriefingChange × Bool
  of_facts (some (object old)) new = cut_changes (all_changes sections old new)
  of_facts _ new = ([], false)

  unfoldable pub compare_briefing_facts : Option Members → Members → List BriefingChange × Bool
  compare_briefing_facts none new = ([], false)
  compare_briefing_facts (some previous) new = of_facts (lookup "facts" previous) new
