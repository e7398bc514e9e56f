-- ===== src/Service/Briefing/Changes/Complete.antt =====
-- No change between two snapshots is passed over by internal/service/briefing.go's
-- `compareBriefingFacts`, but for the cut.
use mcp_grand_lyon.Base.{
  ap, ◌&&◌, ◌||◌, String, Bool, true, ◌≡◌, ◌≢◌, ◌⊎◌, refl, arith, Option, none, some, eq_iff, inl,
  inr, List, [], ◌∷◌, ◌++◌, any, length, length-take, ◌=ₛ◌, ltb, Bool-cases,
}
use Prim.Native.String.{◌++◌ as ◌+ₛ◌}
use mathlib.Core.Option
use mathlib.Core.Path.{subst}
use mathlib.Core.List.{Memᴰ}
use mcp_grand_lyon.Service.Briefing.Volatile.{equal_value_iff}
use mcp_grand_lyon.Service.Dispatch.{Json, object, Members}
use mcp_grand_lyon.Service.Briefing.Values.{lookup, equal_value, remove_members}
use mcp_grand_lyon.Service.Briefing.Changes.{
  Section, departures, velov, journey, mobility, environment, section_name, sections, find_item,
  briefing_items, BriefingChange, Codec, change_at, briefing_change, section_changes, all_changes,
  compare_briefing_facts, cut_changes,
}
use mcp_grand_lyon.Service.Briefing.Changes.Diff.{IsListed, item_changes_complete}

-- "added", "removed" or "updated", by what the two snapshots have.
abbrev pub kind_of : Option Members → Option Members → String
kind_of none new = "added"
kind_of (some old) none = "removed"
kind_of (some old) (some new) = "updated"

-- The list has a change of this kind under this key.
abbrev pub has_change : String → String → List BriefingChange → Bool
has_change key kind cs = any (λ c. (c.key =ₛ key) && (c.kind =ₛ kind)) cs

has_change-append :
    (key kind : String) (cs ds : List BriefingChange)
    → has_change key kind (cs ++ ds) ≡ (has_change key kind cs || has_change key kind ds)
has_change-append key kind [] ds = refl
has_change-append key kind (c ∷ cs) ds = ground (arith, has_change-append key kind cs ds)

IsListed-has_change :
    (c : BriefingChange) (cs : List BriefingChange)
    → IsListed c cs
    → has_change c.key c.kind cs ≡ true
IsListed-has_change c [] h = elim h [ ]
IsListed-has_change c (d ∷ ds) (inl e) =
    ground
      (arith, e, ap (λ b. b.key) e, ap (λ b. b.kind) e, eq_iff d.key c.key, eq_iff d.kind c.kind)
IsListed-has_change c (d ∷ ds) (inr h) = ground (arith, IsListed-has_change c ds h)

module _ (codec : Codec) where
  -- The change under a key has the section's key and the kind.
  change_at-kind :
      (section : Section) (key : String) (old new : Option Members)
      → Option.map remove_members old ≢ Option.map remove_members new
      → (c : BriefingChange) × (change_at codec section key old new ≡ some c)
        × (c.key ≡ section_name section +ₛ ":" +ₛ key)
        × (c.kind ≡ kind_of old new)
  unfolding change_at briefing_change
  change_at-kind section key none none h = elim (h refl) [ ]
  change_at-kind section key none (some new) h = (_, refl, refl, refl)
  change_at-kind section key (some old) none h = (_, refl, refl, refl)
  change_at-kind section key (some old) (some new) h = elim (Bool-cases (equal_value old new)) [
    | inl t ↦ elim (h (ap some ((equal_value_iff old new).0 t))) [ ]
    | inr f ↦ (
      briefing_change codec (section_name section +ₛ ":" +ₛ key) "updated" section (some old)
          (some new),
      rw f refl,
      refl,
      refl,
    )
  ]

  section_changes_complete :
      (section : Section) (old new : Json) (key : String)
      → Option.map remove_members (find_item key (briefing_items section old))
        ≢ Option.map remove_members (find_item key (briefing_items section new))
      → has_change
          (section_name section +ₛ ":" +ₛ key)
          (kind_of
            (find_item key (briefing_items section old))
            (find_item key (briefing_items section new)))
          (section_changes codec section (some old) (some new))
        ≡ true
  unfolding section_changes
  section_changes_complete section old new key h =
      let was = find_item key (briefing_items section old) in
      let is = find_item key (briefing_items section new) in
      let (c, e, k, m) = change_at-kind section key was is h in
      rw (← k, ← m)
        (IsListed-has_change c _ (
          item_changes_complete codec section (briefing_items section old)
            (briefing_items section new) key c e))

  section_in :
      (section : Section) (old new : Members) (key kind : String)
      → has_change key kind (
          section_changes codec section
            (lookup (section_name section) old)
            (lookup (section_name section) new))
        ≡ true
      → (ss : List Section) → Memᴰ section ss
      → has_change key kind (all_changes codec ss old new) ≡ true
  unfolding all_changes
  section_in section old new key kind h [] m = elim m [ ]
  section_in section old new key kind h (s ∷ ss) (Memᴰ.head e) =
      let here =
        subst
          (λ t.
            has_change key kind
              (section_changes codec t (lookup (section_name t) old) (lookup (section_name t) new))
            ≡ true)
          e h in
      ground (
        arith,
        here,
        has_change-append key kind
            (section_changes codec s (lookup (section_name s) old) (lookup (section_name s) new))
            (all_changes codec ss old new),
      )
  section_in section old new key kind h (s ∷ ss) (Memᴰ.tail m) = ground (
    arith,
    section_in section old new key kind h ss m,
    has_change-append key kind
        (section_changes codec s (lookup (section_name s) old) (lookup (section_name s) new))
        (all_changes codec ss old new),
  )

  every_section : (section : Section) → Memᴰ section sections
  every_section departures = Memᴰ.head refl
  every_section velov = Memᴰ.tail (Memᴰ.head refl)
  every_section journey = Memᴰ.tail (Memᴰ.tail (Memᴰ.head refl))
  every_section mobility = Memᴰ.tail (Memᴰ.tail (Memᴰ.tail (Memᴰ.head refl)))
  every_section environment = Memᴰ.tail (Memᴰ.tail (Memᴰ.tail (Memᴰ.tail (Memᴰ.head refl))))

  cut_changes-keeps :
      (key kind : String) (cs : List BriefingChange)
      → has_change key kind cs ≡ true
      → (has_change key kind (cut_changes cs).0 ≡ true)
        ⊎ (((cut_changes cs).1 ≡ true) × (length (cut_changes cs).0 ≡ 50))
  cut_changes-keeps key kind cs h = elim (Bool-cases (ltb 50 (length cs))) [
    | inl t ↦ inr (t, ground (arith, t, length-take 50 cs))
    | inr f ↦ inl (rw f h)
  ]

  -- Where both snapshots have a section, and the items that they have under a key differ in more than
  -- the volatile fields, or one of them has none, the change is listed under the section's name and
  -- the key, as added, removed or updated; or else the list has fifty changes and is said to be
  -- cut.
  pub compare_briefing_facts_complete :
      (previous old new : Members) (section : Section) (was is : Json) (key : String)
      → lookup "facts" previous ≡ some (object old)
      → lookup (section_name section) old ≡ some was
      → lookup (section_name section) new ≡ some is
      → Option.map remove_members (find_item key (briefing_items section was))
        ≢ Option.map remove_members (find_item key (briefing_items section is))
      → let (changes, truncated) = compare_briefing_facts codec (some previous) new in
        (has_change
            (section_name section +ₛ ":" +ₛ key)
            (kind_of
              (find_item key (briefing_items section was))
              (find_item key (briefing_items section is)))
            changes
          ≡ true)
        ⊎ ((truncated ≡ true) × (length changes ≡ 50))
  unfolding compare_briefing_facts
  compare_briefing_facts_complete previous old new section was is key f a b h = rw f (
      cut_changes-keeps _ _ _ (
        section_in section old new _ _ (rw (a, b) (section_changes_complete section was is key h))
          sections (every_section section)))
