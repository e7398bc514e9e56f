-- ===== src/Service/Briefing/Changes/Tests.antt =====
-- The instances of the theorems on a briefing's changes at concrete snapshots.
use mcp_grand_lyon.Base.{
  ◌≢◌, ap, eq_iff, value_or, ◌⊎◌, length, true, arith, Option, ◌≡◌, refl, String, false, none, some,
  [], ◌∷◌,
}
use mathlib.Core.Option
use mcp_grand_lyon.Base.Text.{trim_string}
use mcp_grand_lyon.Base.TextOrder.{text_lt}
use mcp_grand_lyon.Base.Sort.{sort_stable}
use mcp_grand_lyon.Service.Dispatch.{
  Json, text, array, object, no_items, item, Members, no_members, member,
}
use mcp_grand_lyon.Service.Briefing.Values.{
  lookup, string_value, equal_value, same_json, remove_volatile, remove_members, is_volatile,
}
use mcp_grand_lyon.Service.Briefing.Changes.{
  velov, find_item, Codec, change_at, item_changes, compare_briefing_facts, collect_items, item_key,
  add_names, briefing_items, all_changes, section_changes, gather_changes, ordered_names,
  briefing_change, update_message,
}
use mcp_grand_lyon.Service.Briefing.Changes.Complete.{
  has_change, kind_of, compare_briefing_facts_complete,
}
use mcp_grand_lyon.Service.Briefing.Changes.Unchanged.{compare_briefing_facts-unchanged}

abbrev codec : Codec
codec = record { encode = λ v. []; parse_time = λ s. none; sprint = λ v. "" }

abbrev station : String → String → String → Members
station id observed availability =
    member "availability" (text availability)
      (member "id" (text id) (member "observed_at" (text observed) no_members))

abbrev stations : Members → Json
stations ms = object (member "stations" (array (item (object ms) no_items)) no_members)

abbrev facts : Members → Members
facts ms = member "velov" (stations ms) no_members

abbrev snapshot : Members → Members
snapshot ms = member "at" (text "06:00") (member "facts" (object (facts ms)) no_members)

abbrev early : Members
early = facts (station "7001" "06:00" "good")

abbrev late : Members
late = facts (station "7001" "07:00" "good")

-- The kind and the message of the one change of a station.
changed_test :
    (compare_briefing_facts codec
      (some (snapshot (station "7001" "06:00" "good")))
      (facts (station "7001" "07:00" "low"))).0
    ≡ record {
      key = "velov:7001";
      kind = "updated";
      message = "Availability changed from good to low.";
      previous = some [];
      current = some [];
      source = some "velov";
      observed_at = none;
    }
      ∷ []
unfolding compare_briefing_facts lookup all_changes section_changes briefing_items collect_items
    item_key item_changes gather_changes ordered_names find_item change_at briefing_change
    update_message remove_volatile is_volatile string_value equal_value same_json trim_string
    text_lt sort_stable add_names
changed_test = refl

facts_found : lookup "facts" (snapshot (station "7001" "06:00" "good")) ≡ some (object early)
unfolding lookup
facts_found = refl

same_facts : remove_members early ≡ remove_members late
unfolding remove_volatile is_volatile
same_facts = refl

compare_briefing_facts-unchanged_example :
    compare_briefing_facts codec (some (snapshot (station "7001" "06:00" "good"))) late
    ≡ ([], false)
compare_briefing_facts-unchanged_example =
    compare_briefing_facts-unchanged codec (snapshot (station "7001" "06:00" "good")) early late
      facts_found same_facts

abbrev was : Json
was = stations (station "7001" "06:00" "good")

abbrev is : Json
is = stations (station "7001" "07:00" "low")

facts_there : lookup "velov" (facts (station "7001" "07:00" "low")) ≡ some is
unfolding lookup
facts_there = refl

facts_before : lookup "velov" early ≡ some was
unfolding lookup
facts_before = refl

abbrev availability : Option Members → String
availability o = string_value (lookup "availability" (value_or o no_members))

availability_changed :
    Option.map remove_members (find_item "7001" (briefing_items velov was))
    ≢ Option.map remove_members (find_item "7001" (briefing_items velov is))
unfolding briefing_items lookup collect_items item_key find_item string_value trim_string
    remove_volatile is_volatile
availability_changed h =
    let e : "good" ≡ "low" = ap availability h in ground (arith, e, eq_iff "good" "low")

compare_briefing_facts_complete_example :
    let (changes, truncated) =
      compare_briefing_facts codec
        (some (snapshot (station "7001" "06:00" "good")))
        (facts (station "7001" "07:00" "low")) in
    (has_change "velov:7001"
        (kind_of
          (find_item "7001" (briefing_items velov was))
          (find_item "7001" (briefing_items velov is)))
        changes
      ≡ true)
    ⊎ ((truncated ≡ true) × (length changes ≡ 50))
compare_briefing_facts_complete_example =
    compare_briefing_facts_complete codec (snapshot (station "7001" "06:00" "good")) early
      (facts (station "7001" "07:00" "low")) velov was is "7001" facts_found facts_before
      facts_there availability_changed
