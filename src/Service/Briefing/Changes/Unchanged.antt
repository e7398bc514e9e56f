-- ===== src/Service/Briefing/Changes/Unchanged.antt =====
-- internal/service/briefing.go's `compareBriefingFacts` on two snapshots whose facts differ in
-- volatile fields at most.
use mcp_grand_lyon.Base.{
  value_or, String, false, ◌≡◌, refl, ap, ◌∙◌, sym, arith, Option, none, some, List, [], ◌∷◌,
}
use mathlib.Core.Option
use mcp_grand_lyon.Service.Dispatch.{
  Json, null, bool, number, text, array, object, Items, no_items, item, Members,
}
use mcp_grand_lyon.Service.Briefing.Values.{
  lookup, is_volatile, remove_volatile, remove_items, remove_members,
}
use mcp_grand_lyon.Service.Briefing.Volatile.{lookup-remove_members, string_field-remove_members}
use mcp_grand_lyon.Service.Briefing.Changes.{
  Section, departures, velov, journey, mobility, environment, section_name, items_field, sections,
  Entries, find_item, put_item, item_key, collect_items, briefing_items, ordered_names,
  BriefingChange, Codec, gather_changes, item_changes, section_changes, all_changes,
  compare_briefing_facts, with_item, field, listed,
}
use mcp_grand_lyon.Service.Briefing.Changes.Diff.{change_at-eq-none_iff}

strip : Entries → Entries
strip [] = []
strip ((k, v) ∷ es) = (k, remove_members v) ∷ strip es

find_item-strip :
    (key : String) (es : Entries)
    → find_item key (strip es) ≡ Option.map remove_members (find_item key es)
unfolding find_item strip
find_item-strip key [] = refl
find_item-strip key ((k, v) ∷ es) = ground (arith, find_item-strip key es)

put_item-strip :
    (key : String) (ms : Members) (es : Entries)
    → put_item key (remove_members ms) (strip es) ≡ strip (put_item key ms es)
unfolding put_item strip
put_item-strip key ms [] = refl
put_item-strip key ms ((k, v) ∷ es) = ground (arith, put_item-strip key ms es)

with_item-strip :
    (key : String) (ms : Members) (es : Entries)
    → with_item key (remove_members ms) (strip es) ≡ strip (with_item key ms es)
with_item-strip key ms es = ground (arith, put_item-strip key ms es)

field-remove_members :
    (key : String) (ms : Members)
    → is_volatile key ≡ false
    → field key (remove_members ms) ≡ field key ms
field-remove_members key ms h = string_field-remove_members key ms h

item_key-remove_members :
    (section : Section) (ms : Members) → item_key section (remove_members ms) ≡ item_key section ms
unfolding item_key is_volatile
item_key-remove_members departures ms =
    rw
      (
        field-remove_members "line_name" ms refl,
        field-remove_members "destination" ms refl,
        field-remove_members "expected_at" ms refl,
        field-remove_members "scheduled_at" ms refl,
      )
      refl
item_key-remove_members velov ms = field-remove_members "id" ms refl
item_key-remove_members journey ms =
    rw (field-remove_members "mode" ms refl, field-remove_members "summary" ms refl) refl
item_key-remove_members mobility ms = field-remove_members "id" ms refl
item_key-remove_members environment ms = field-remove_members "indicator" ms refl

collect_items-strip :
    (section : Section) (xs : Items) (es : Entries)
    → collect_items section (remove_items xs) (strip es) ≡ strip (collect_items section xs es)
unfolding collect_items remove_volatile
collect_items-strip section no_items es = refl
collect_items-strip section (item null xs) es = collect_items-strip section xs es
collect_items-strip section (item (bool b) xs) es = collect_items-strip section xs es
collect_items-strip section (item (number s) xs) es = collect_items-strip section xs es
collect_items-strip section (item (text s) xs) es = collect_items-strip section xs es
collect_items-strip section (item (array ys) xs) es = collect_items-strip section xs es
collect_items-strip section (item (object ms) xs) es =
    rw (item_key-remove_members section ms, with_item-strip (item_key section ms) ms es)
      (collect_items-strip section xs (with_item (item_key section ms) ms es))

listed-strip :
    (section : Section) (o : Option Json)
    → listed section (Option.map remove_volatile o) ≡ strip (listed section o)
unfolding remove_volatile strip
listed-strip section none = refl
listed-strip section (some null) = refl
listed-strip section (some (bool b)) = refl
listed-strip section (some (number s)) = refl
listed-strip section (some (text s)) = refl
listed-strip section (some (object ms)) = refl
listed-strip section (some (array xs)) = collect_items-strip section xs []

items_field-kept : (section : Section) → is_volatile (items_field section) ≡ false
unfolding is_volatile
items_field-kept departures = refl
items_field-kept velov = refl
items_field-kept journey = refl
items_field-kept mobility = refl
items_field-kept environment = refl

section_name-kept : (section : Section) → is_volatile (section_name section) ≡ false
unfolding is_volatile
section_name-kept departures = refl
section_name-kept velov = refl
section_name-kept journey = refl
section_name-kept mobility = refl
section_name-kept environment = refl

briefing_items-strip :
    (section : Section) (v : Json)
    → briefing_items section (remove_volatile v) ≡ strip (briefing_items section v)
unfolding briefing_items remove_volatile strip
briefing_items-strip section null = refl
briefing_items-strip section (bool b) = refl
briefing_items-strip section (number s) = refl
briefing_items-strip section (text s) = refl
briefing_items-strip section (array xs) = refl
briefing_items-strip section (object ms) =
    ap (listed section) (lookup-remove_members (items_field section) ms (items_field-kept section))
    ∙ listed-strip section (lookup (items_field section) ms)

module _ (codec : Codec) where
  gather_changes-none :
      (f : String → Option BriefingChange) (ks : List String)
      → ((key : String) → f key ≡ none)
      → gather_changes codec f ks ≡ []
  unfolding gather_changes
  gather_changes-none f [] h = refl
  gather_changes-none f (k ∷ ks) h = rw (h k) (gather_changes-none f ks h)

  item_changes-unchanged :
      (section : Section) (old new : Entries)
      → strip old ≡ strip new
      → item_changes codec section old new ≡ []
  unfolding item_changes
  item_changes-unchanged section old new h = gather_changes-none _ (ordered_names old new) (λ key.
      (change_at-eq-none_iff codec section key (find_item key old) (find_item key new)).1
        (sym (find_item-strip key old) ∙ ap (find_item key) h ∙ find_item-strip key new))

  section_changes-unchanged :
      (section : Section) (old new : Option Json)
      → Option.map remove_volatile old ≡ Option.map remove_volatile new
      → section_changes codec section old new ≡ []
  unfolding section_changes
  section_changes-unchanged section none new h = refl
  section_changes-unchanged section (some v) none h = cc
  section_changes-unchanged section (some v) (some w) h =
      item_changes-unchanged section (briefing_items section v) (briefing_items section w) (
        sym (briefing_items-strip section v)
        ∙ ap (briefing_items section) (ap (λ o. value_or o null) h)
        ∙ briefing_items-strip section w)

  all_changes-unchanged :
      (ss : List Section) (old new : Members)
      → remove_members old ≡ remove_members new
      → all_changes codec ss old new ≡ []
  unfolding all_changes
  all_changes-unchanged [] old new h = refl
  all_changes-unchanged (s ∷ ss) old new h =
      rw
        (
          section_changes-unchanged s (lookup (section_name s) old) (lookup (section_name s) new) (
              sym (lookup-remove_members (section_name s) old (section_name-kept s))
              ∙ ap (lookup (section_name s)) h
              ∙ lookup-remove_members (section_name s) new (section_name-kept s)),
          all_changes-unchanged ss old new h,
        )
        refl

  -- Where the facts of the snapshot before and the current ones are the same once the volatile fields
  -- are removed, at any depth, no change is reported, whatever else the snapshot holds.
  pub compare_briefing_facts-unchanged :
      (snapshot facts current : Members)
      → lookup "facts" snapshot ≡ some (object facts)
      → remove_members facts ≡ remove_members current
      → compare_briefing_facts codec (some snapshot) current ≡ ([], false)
  unfolding compare_briefing_facts
  compare_briefing_facts-unchanged snapshot facts current e h =
      rw (e, all_changes-unchanged sections facts current h) refl
