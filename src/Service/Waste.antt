-- ===== src/Service/Waste.antt =====
-- internal/service/waste.go: the taxonomy, `classifyWaste` and `WasteDropoff`. What the taxonomy's
-- file holds, strings.ToLower, strings.EqualFold, package regexp, what `Validate` and `ResolvePoint` give for the
-- location, the provider's answer and the minute of the day in Paris are arguments. The texts that
-- print a number are given without it.
pub mod Class
pub mod Dropoff
pub mod Handler
pub mod Answer
mod Tests
use mcp_grand_lyon.Base.{
  ℕ, zero, suc, ◌+◌, ◌-◌, String, Bool, true, false, ◌&&◌, ◌||◌, not, Option, none, some, List, [],
  ◌∷◌, map, any, filter, take, ◌==◌, ◌=ₛ◌, if◌then◌else◌, is_nil,
}
use Prim.Native.String.{◌++◌ as ◌+ₛ◌}
use mcp_grand_lyon.Base.Int.{ℤ, pos, negsuc, ltb_ℤ}
use mcp_grand_lyon.Base.Sort.{sort_stable}
use mcp_grand_lyon.Base.Text.{Text, codes, trim_space}
use mcp_grand_lyon.Model.Envelope.{Time}
use mcp_grand_lyon.Model.Float.{Float, Point, distance}
use mcp_grand_lyon.Model.Line.{contains}
use mcp_grand_lyon.Service.Facilities.{OpenStatus, unknown, open_now, closed, opening_status_at}

pub record WasteRuleYaml (F : Type 0) : Type 0 where
  pub id : String
  pub category : String
  pub priority : ℤ
  pub confidence : F
  pub hazardous : Bool
  pub aliases : List String
  pub patterns : List String

pub record WasteTaxonomyFile (F : Type 0) : Type 0 where
  pub version : ℤ
  pub rules : List (WasteRuleYaml F)

-- A compiled pattern is its test of a text.
pub record CompiledWasteRule (F : Type 0) : Type 0 where
  pub rule : WasteRuleYaml F
  pub tests : List (Text → Bool)

pub record WasteClassification (F : Type 0) : Type 0 where
  pub input : Text
  pub category : String
  pub hazardous : Bool
  pub confidence : F
  pub matched_rule : Option String
  pub candidates : List String

pub record WasteFacility (F : Type 0) : Type 0 where
  pub id : String
  pub name : String
  pub latitude : F
  pub longitude : F
  pub accepted_categories : List String
  pub distance_m : Option F
  pub open_status : String
  pub opening_hours_raw : Option Text

-- What the loop of `WasteDropoff` decides on a facility, in the order of its tests.
pub data Decision : Type 0 where
  not_accepted too_far no_hours closed_then taken : Decision

-- The variables of the loop.
pub record Dropoffs (F : Type 0) : Type 0 where
  pub filtered : List (WasteFacility F)
  pub unknown_hours : ℕ
  pub unknown_acceptance : ℕ

abbrev is_one : ℤ → Bool
is_one (pos n) = n == 1
is_one (negsuc n) = false

abbrev cons_some {ℓ} : {A : Type ℓ} → Option A → Option (List A) → Option (List A)
cons_some (some a) (some rest) = some (a ∷ rest)
cons_some _ _ = none

-- `regexp.Compile` of each pattern: nothing where one is no regular expression.
unfoldable pub compile_all :
    (String → Option (Text → Bool)) → List String → Option (List (Text → Bool))
compile_all compile [] = some []
compile_all compile (p ∷ ps) = cons_some (compile ("(?i)" +ₛ p)) (compile_all compile ps)

module _ (fl : Float) (lower : Text → Text) where
  open fl use {F, literal, lt, sub}

  abbrev with_tests : WasteRuleYaml F → Option (List (Text → Bool)) → Option (CompiledWasteRule F)
  with_tests r none = none
  with_tests r (some ts) = some (record { rule = r; tests = ts })

  abbrev is_invalid : WasteRuleYaml F → Bool
  is_invalid r =
      (r.id =ₛ "")
      || (r.category =ₛ "")
      || lt r.confidence (literal "0")
      || lt (literal "1") r.confidence

  unfoldable pub compile_rules :
      (String → Option (Text → Bool)) → List (WasteRuleYaml F) → Option (List (CompiledWasteRule F))
  compile_rules compile [] = some []
  compile_rules compile (r ∷ rs) =
      cons_some (if is_invalid r then none else with_tests r (compile_all compile r.patterns))
        (compile_rules compile rs)

  abbrev higher : CompiledWasteRule F → CompiledWasteRule F → Bool
  higher a b = ltb_ℤ b.rule.priority a.rule.priority

  abbrev by_priority : Option (List (CompiledWasteRule F)) → Option (List (CompiledWasteRule F))
  by_priority none = none
  by_priority (some rs) = some (sort_stable higher rs)

  -- The decoded file is nothing where it cannot be read or decoded.
  unfoldable pub load_waste_taxonomy :
      (String → Option (Text → Bool))
      → Option (WasteTaxonomyFile F)
      → Option (List (CompiledWasteRule F))
  load_waste_taxonomy compile none = none
  load_waste_taxonomy compile (some t) =
      if not (is_one t.version) || is_nil t.rules
      then none
      else by_priority (compile_rules compile t.rules)

  unfoldable pub is_match : Text → CompiledWasteRule F → Bool
  is_match normalized r =
      any (λ alias. contains (lower (codes alias)) normalized) r.rule.aliases
      || any (λ test. test normalized) r.tests

  abbrev pub surer : CompiledWasteRule F → CompiledWasteRule F → Bool
  surer a b = lt b.rule.confidence a.rule.confidence

  abbrev pub unclassified : Text → WasteClassification F
  unclassified item = record {
    input = item;
    category = "unknown";
    hazardous = false;
    confidence = literal "0";
    matched_rule = none;
    candidates = [];
  }

  abbrev pub is_close : CompiledWasteRule F → List (CompiledWasteRule F) → Bool
  is_close best [] = false
  is_close best (second ∷ rest) =
      lt (sub best.rule.confidence second.rule.confidence) (literal "0.1")

  abbrev pub of_matches : Text → List (CompiledWasteRule F) → WasteClassification F
  of_matches item [] = unclassified item
  of_matches item (best ∷ rest) = record {
    input = item;
    category = best.rule.category;
    hazardous = best.rule.hazardous;
    confidence = best.rule.confidence;
    matched_rule = some best.rule.id;
    candidates =
        if is_close best rest then take 3 (map (λ r. r.rule.category) (best ∷ rest)) else [];
  }

  unfoldable pub classify_waste : Text → List (CompiledWasteRule F) → WasteClassification F
  classify_waste item rules =
      of_matches item (sort_stable surer (filter (is_match (lower (trim_space item))) rules))

module _ (fl : Float) (equal_fold : String → String → Bool) (minute_of : Time → ℕ) where
  open fl use {F, lt}

  abbrev pub reach : Point F → WasteFacility F → F
  reach point f = distance fl point (record { latitude = f.latitude; longitude = f.longitude })

  abbrev by_hours : OpenStatus → Decision
  by_hours unknown = no_hours
  by_hours open_now = taken
  by_hours closed = closed_then

  abbrev pub opened : Option Time → WasteFacility F → Decision
  opened none f = taken
  opened (some at) f = by_hours (opening_status_at f.opening_hours_raw (minute_of at))

  abbrev pub is_refused : String → WasteFacility F → Bool
  is_refused category f =
      not (is_nil f.accepted_categories)
      && not (any (λ c. equal_fold c category) f.accepted_categories)

  unfoldable pub decide : String → Point F → F → Option Time → WasteFacility F → Decision
  decide category point radius open_at f =
      if is_refused category f
      then not_accepted
      else if lt radius (reach point f)
      then too_far
      else opened open_at f

  abbrev pub placed : Option Time → Point F → WasteFacility F → WasteFacility F
  placed none point f = record f { distance_m = some (reach point f) }
  placed (some at) point f = record f { distance_m = some (reach point f); open_status = "open" }

  abbrev no_dropoffs : Dropoffs F
  no_dropoffs = record { filtered = []; unknown_hours = 0; unknown_acceptance = 0 }

  abbrev count : Bool → ℕ → ℕ
  count b n = if b then suc n else n

  abbrev pub is_taken : Decision → Bool
  is_taken taken = true
  is_taken _ = false

  abbrev lacks_hours : Decision → Bool
  lacks_hours no_hours = true
  lacks_hours _ = false

  -- One round of the loop, before what the later ones give.
  abbrev pub joined : Option Time → Point F → WasteFacility F → Decision → Dropoffs F → Dropoffs F
  joined open_at point f d later = record {
    filtered = if is_taken d then placed open_at point f ∷ later.filtered else later.filtered;
    unknown_hours = count (lacks_hours d) later.unknown_hours;
    unknown_acceptance = count (is_nil f.accepted_categories) later.unknown_acceptance;
  }

  -- The loop, with the number of facilities that it may still take: `break` where none is left.
  unfoldable pub gather_dropoffs :
      String → Point F → F → Option Time → ℕ → List (WasteFacility F) → Dropoffs F
  unfolding decide
  gather_dropoffs category point radius open_at room [] = no_dropoffs
  gather_dropoffs category point radius open_at room (f ∷ fs) =
      let d = decide category point radius open_at f in
      let left = if is_taken d then room - 1 else room in
      let later = gather_dropoffs category point radius open_at left fs in
      joined open_at point f d (if is_taken d && room == 1 then no_dropoffs else later)
