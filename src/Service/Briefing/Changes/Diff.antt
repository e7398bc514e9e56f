-- ===== src/Service/Briefing/Changes/Diff.antt =====
-- The changes between two snapshots that internal/service/briefing.go's `compareBriefingFacts`
-- lists: sound, complete, in order and bounded.
use mcp_grand_lyon.Base.{
  false, ◌≤◌, String, true, ◌≡◌, ◌↔◌, ◌⊎◌, refl, ◌∙◌, arith, Option, none, some, eq_iff,
  Option-cases, inl, inr, List, [], ◌∷◌, All, length, length-take,
}
use mcp_grand_lyon.Base.Text.{codes}
use mcp_grand_lyon.Base.TextOrder.{text_lt-IsStrictWeak}
use mcp_grand_lyon.Base.Sort.{any-sort_stable, IsSorted, IsStrictWeak, sort_stable-IsSorted}
use mathlib.Core.Option
use mcp_grand_lyon.Service.Dispatch.{Json, null, bool, number, text, array, object, Members}
use mcp_grand_lyon.Service.Briefing.Values.{lookup, remove_members}
use mcp_grand_lyon.Service.Briefing.Volatile.{equal_value_iff}
use mcp_grand_lyon.Service.Briefing.Changes.{
  Section, Entries, find_item, has_name, add_names, name_less, ordered_names, BriefingChange, Codec,
  change_at, gather_changes, item_changes, compare_briefing_facts, cut_changes, of_facts,
}

-- The change is one of the list.
abbrev pub IsListed : BriefingChange → List BriefingChange → Type 0
IsListed c [] = ⊥
IsListed c (d ∷ ds) = (d ≡ c) ⊎ IsListed c ds

add_names-has_name :
    (key : String) (es : Entries) (ks : List String)
    → has_name key ks ≡ true
    → has_name key (add_names es ks) ≡ true
unfolding add_names
add_names-has_name key [] ks h = h
add_names-has_name key ((k, v) ∷ es) ks h = ground (arith, add_names-has_name key es ks h)

find_item-has_name :
    (key : String) (es : Entries) (ks : List String) (ms : Members)
    → find_item key es ≡ some ms
    → has_name key (add_names es ks) ≡ true
unfolding find_item add_names
find_item-has_name key [] ks ms h = cc
find_item-has_name key ((k, v) ∷ es) ks ms h =
    ground (arith, find_item-has_name key es ks ms, eq_iff k key)

-- A key of either snapshot is among the names that are gone through.
ordered_names_complete :
    (key : String) (old new : Entries) (ms : Members)
    → (find_item key old ≡ some ms) ⊎ (find_item key new ≡ some ms)
    → has_name key (ordered_names old new) ≡ true
unfolding ordered_names
ordered_names_complete key old new ms (inl h) =
    any-sort_stable name_less _ _
    ∙ add_names-has_name key new _ (find_item-has_name key old [] ms h)
ordered_names_complete key old new ms (inr h) =
    any-sort_stable name_less _ _ ∙ find_item-has_name key new _ ms h

name_less-IsStrictWeak : IsStrictWeak name_less
name_less-IsStrictWeak = record {
  asymm = λ a b. text_lt-IsStrictWeak.asymm (codes a) (codes b);
  le_trans = λ a b c. text_lt-IsStrictWeak.le_trans (codes a) (codes b) (codes c);
}

ordered_names-IsSorted : (old new : Entries) → IsSorted name_less (ordered_names old new)
unfolding ordered_names
ordered_names-IsSorted old new = sort_stable-IsSorted name_less name_less-IsStrictWeak _

module _ (codec : Codec) where
  gather_changes_complete :
      (f : String → Option BriefingChange) (key : String) (c : BriefingChange) (ks : List String)
      → has_name key ks ≡ true
      → f key ≡ some c
      → IsListed c (gather_changes codec f ks)
  unfolding gather_changes
  gather_changes_complete f key c [] h e = cc
  gather_changes_complete f key c (k ∷ ks) h e =
      ground (arith, gather_changes_complete f key c ks, eq_iff k key)

  gather_changes_sound :
      (f : String → Option BriefingChange) (ks : List String)
      → All (λ c. (key : String) × (f key ≡ some c)) (gather_changes codec f ks)
  unfolding gather_changes
  gather_changes_sound f [] = tt
  gather_changes_sound f (k ∷ ks) = elim (Option-cases (f k)) [
    | inl e ↦ rw e (gather_changes_sound f ks)
    | inr (c, e) ↦ rw e ((k, e), gather_changes_sound f ks)
  ]

  -- An item of a section is passed over exactly if it is in neither snapshot or has, apart from the
  -- volatile fields, the same value in both.
  pub change_at-eq-none_iff :
      (section : Section) (key : String) (old new : Option Members)
      → (change_at codec section key old new ≡ none)
        ↔ (Option.map remove_members old ≡ Option.map remove_members new)
  unfolding change_at
  change_at-eq-none_iff section key none none = (λ h. refl, λ h. refl)
  change_at-eq-none_iff section key (some o) none = (λ h. cc, λ h. cc)
  change_at-eq-none_iff section key none (some n) = (λ h. cc, λ h. cc)
  change_at-eq-none_iff section key (some o) (some n) = ground (arith, equal_value_iff o n)

  change_at-has_name :
      (section : Section) (key : String) (c : BriefingChange) (old new : Entries)
      → change_at codec section key (find_item key old) (find_item key new) ≡ some c
      → has_name key (ordered_names old new) ≡ true
  unfolding change_at
  change_at-has_name section key c old new h = elim (Option-cases (find_item key old)) [
    | inr (o, e) ↦ ordered_names_complete key old new o (inl e)
    | inl e ↦ elim (Option-cases (find_item key new)) [
      | inr (n, f) ↦ ordered_names_complete key old new n (inr f)
      | inl f ↦ ground (arith, e, f)
    ]
  ]

  cut_changes-bounded :
      (cs : List BriefingChange)
      → (length (cut_changes cs).0 ≤ 50)
        × (((cut_changes cs).1 ≡ false) ⊎ (length (cut_changes cs).0 ≡ 50))
  cut_changes-bounded cs = ground (arith, length-take 50 cs)

  of_facts-bounded :
      (facts : Option Json) (current : Members)
      → (length (of_facts codec facts current).0 ≤ 50)
        × (((of_facts codec facts current).1 ≡ false)
            ⊎ (length (of_facts codec facts current).0 ≡ 50))
  of_facts-bounded none current = (omega arith, inl refl)
  of_facts-bounded (some null) current = (omega arith, inl refl)
  of_facts-bounded (some (bool b)) current = (omega arith, inl refl)
  of_facts-bounded (some (number s)) current = (omega arith, inl refl)
  of_facts-bounded (some (text s)) current = (omega arith, inl refl)
  of_facts-bounded (some (array xs)) current = (omega arith, inl refl)
  of_facts-bounded (some (object ms)) current = cut_changes-bounded _

  -- What is listed for a section is, for some key, the change between the items that the two
  -- snapshots have under it.
  pub item_changes_sound :
      (section : Section) (old new : Entries)
      → All
          (λ c.
            (key : String) × (change_at codec section key (find_item key old) (find_item key new)
              ≡ some c))
          (item_changes codec section old new)
  unfolding item_changes
  item_changes_sound section old new = gather_changes_sound _ (ordered_names old new)

  -- Where the items that the two snapshots have under a key give a change, it is listed.
  pub item_changes_complete :
      (section : Section) (old new : Entries) (key : String) (c : BriefingChange)
      → change_at codec section key (find_item key old) (find_item key new) ≡ some c
      → IsListed c (item_changes codec section old new)
  unfolding item_changes
  item_changes_complete section old new key c h =
      gather_changes_complete _ key c (ordered_names old new)
        (change_at-has_name section key c old new h) h

  -- At most fifty changes are listed, and fifty where the list is said to be cut.
  pub compare_briefing_facts-bounded :
      (previous : Option Members) (current : Members)
      → let (changes, truncated) = compare_briefing_facts codec previous current in
        (length changes ≤ 50) × ((truncated ≡ false) ⊎ (length changes ≡ 50))
  unfolding compare_briefing_facts
  compare_briefing_facts-bounded none current = (omega arith, inl refl)
  compare_briefing_facts-bounded (some ms) current = of_facts-bounded (lookup "facts" ms) current
