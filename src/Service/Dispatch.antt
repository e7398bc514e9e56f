-- ===== src/Service/Dispatch.antt =====
-- internal/service/dispatch.go: `Call` with its guards and its deferred steps, `IsExecutionError`,
-- `invalidRequestEnvelope`, `attachErrorDetail`, `applyTripPreferenceDefaults`, `markOfflineFixture`
-- and `clearRealtime`. An envelope's data is a JSON object. The decoding and the encoding of JSON
-- (the copy that `markOfflineFixture` takes of the data among them, which is the data itself here),
-- the validation by the schema and its defaults are parameters, and so is the handler of a tool.
pub mod Reports
mod Tests
use mcp_grand_lyon.Base.{
  ℕ, String, Bool, true, false, not, ◌&&◌, ◌||◌, Option, none, some, List, [], ◌∷◌, ◌++◌, map, ltb,
  ◌=ₛ◌, if◌then◌else◌,
}
use mcp_grand_lyon.Model.Envelope.{Time, Envelope, SourceProvenance, new_envelope, warn, warn_if}

mutual
  pub data Json : Type 0 where
    null : Json
    bool : Bool → Json
    number text : String → Json
    array : Items → Json
    object : Members → Json

  pub data Items : Type 0 where
    no_items : Items
    item : Json → Items → Items

  pub data Members : Type 0 where
    no_members : Members
    member : String → Json → Members → Members

-- The value of a number or of a text is its spelling.
unfoldable pub has_key : String → Members → Bool
has_key key no_members = false
has_key key (member k v rest) = k =ₛ key || has_key key rest

unfoldable mutual
  pub clear_realtime : Json → Json
  clear_realtime null = null
  clear_realtime (bool b) = bool b
  clear_realtime (number s) = number s
  clear_realtime (text s) = text s
  clear_realtime (array xs) = array (clear_items xs)
  clear_realtime (object ms) = object (clear_members ms)

  pub clear_items : Items → Items
  clear_items no_items = no_items
  clear_items (item x xs) = item (clear_realtime x) (clear_items xs)

  pub clear_members : Members → Members
  clear_members no_members = no_members
  clear_members (member k v rest) =
      let cleared = clear_realtime v in
      member k (if k =ₛ "realtime" then bool false else cleared) (clear_members rest)

unfoldable pub is_execution_error : String → Bool
is_execution_error status = status =ₛ "invalid_request" || status =ₛ "unavailable"

pub record ValidationDetail : Type 0 where
  pub code : String
  pub field : String
  pub expected : String

abbrev or_text : String → String → String
or_text value other = if value =ₛ "" then other else value

abbrev error_object : String → String → String → String → Json
error_object code field expected message = object (
    member "code" (text code) (
      member "field" (text field)
        (member "expected" (text expected) (member "message" (text message) no_members))))

unfoldable pub invalid_request_envelope :
    Time → ValidationDetail → String → Members → Envelope Members
invalid_request_envelope now detail message payload =
    let error =
      error_object (or_text detail.code "invalid_request") detail.field
        (or_text detail.expected "correct the request and retry") message in
    record (warn (new_envelope now "invalid_request" message (member "error" error payload))
      "INVALID_REQUEST" "request_validation" message false) { status = "invalid_request" }

abbrev detail_of : Envelope Members → Json
detail_of e =
    if e.status =ₛ "unavailable"
    then error_object "execution_failed" ""
        "retry later or check source availability and diagnostics" e.summary
    else error_object "invalid_request" "" "correct the request and retry" e.summary

unfoldable pub attach_error_detail : Envelope Members → Envelope Members
attach_error_detail e =
    if not (is_execution_error e.status) || has_key "error" e.payload
    then e
    else record e { payload = member "error" (detail_of e) e.payload }

abbrev fixture_source : Time → SourceProvenance
fixture_source now = record {
  provider = "Fixtures";
  source_id = "offline_fixtures";
  dataset = "offline_demo";
  attribution = "Bundled demonstration data";
  license = "See ATTRIBUTIONS.md";
  observed_at = none;
  retrieved_at = some now;
  age_seconds = none;
  realtime = false;
  stale = false;
}

abbrev marked_source : SourceProvenance → SourceProvenance
marked_source v = if v.provider =ₛ "GTFS" then record v { realtime = false } else record v {
  realtime = false;
  provider = "Fixtures";
  dataset = "offline_demo";
  observed_at = none;
  age_seconds = none;
}

unfoldable pub mark_offline_fixture : Envelope Members → Envelope Members
mark_offline_fixture e =
    warn
      (record e {
        payload = clear_members e.payload;
        sources = map marked_source e.sources ++ fixture_source e.generated_at ∷ [];
      })
      "OFFLINE_FIXTURE" "offline_fixtures"
      "Offline mode uses demonstration fixtures. These results do not describe current conditions."
      false

-- What `Call` has to itself: the clock, whether the tools' schemas load, the tools' names, the
-- validation (an error's detail and message), the defaults, and the handlers on the arguments.
-- `expired` says whether the execution budget has run out when the handler returns.
pub record Tools : Type 0 where
  pub now : Time
  pub offline : Bool
  pub expired : Bool
  pub loaded : Bool
  pub is_tool : String → Bool
  pub check : String → Members → Option (ValidationDetail × String)
  pub apply_defaults : String → Members → Option Members
  pub handle : String → Members → Envelope Members

-- The length of the raw arguments, and the object that they spell, if they spell one.
pub record Arguments : Type 0 where
  pub size : ℕ
  pub object_of : Option Members

abbrev add_missing : String → Json → Members → Members
add_missing key v ms = if has_key key ms then ms else member key v ms

abbrev with_preference_defaults : Members → Members
with_preference_defaults ms = add_missing "max_walking_m" (number "800") (
    add_missing "minimum_velov_bikes" (number "3") (
      add_missing "minimum_velov_docks" (number "3")
        (add_missing "avoid_disruptions" (bool true) (add_missing "wheelchair" (bool false) ms))))

abbrev preferences_value : Json → Json
preferences_value (object ms) = object (with_preference_defaults ms)
preferences_value v = v

unfoldable pub apply_trip_preference_defaults : Members → Members
apply_trip_preference_defaults no_members = no_members
apply_trip_preference_defaults (member k v rest) =
    let later = apply_trip_preference_defaults rest in
    if k =ₛ "preferences" then member k (preferences_value v) rest else member k v later

abbrev refuse : Tools → String → String → String → String → Envelope Members
refuse tools code field expected message =
    invalid_request_envelope tools.now (record { code = code; field = field; expected = expected })
      message no_members

abbrev prepared : String → Members → Members
prepared name values =
    if name =ₛ "lyon_trip_options" then apply_trip_preference_defaults values else values

abbrev with_defaults : Tools → String → Option Members → Envelope Members
with_defaults tools name none =
    refuse tools "invalid_arguments" "" "use values accepted by the tool schema"
      "Cannot apply tool defaults."
with_defaults tools name (some values) = tools.handle name (prepared name values)

abbrev validated : Tools → String → Members → Option (ValidationDetail × String) → Envelope Members
validated tools name values (some (detail, message)) =
    invalid_request_envelope tools.now detail message no_members
validated tools name values none = with_defaults tools name (tools.apply_defaults name values)

abbrev with_object : Tools → String → Option Members → Envelope Members
with_object tools name none =
    refuse tools "invalid_arguments" "" "send a JSON object as tool arguments"
      "Request arguments must be a JSON object."
with_object tools name (some values) = validated tools name values (tools.check name values)

-- `Call` without what it defers. Empty arguments spell the empty object.
unfoldable pub run : Tools → String → Arguments → Envelope Members
run tools name arguments =
    if not tools.loaded
    then new_envelope tools.now "unavailable" "Tool schemas are unavailable." no_members
    else if not (tools.is_tool name)
    then refuse tools "unknown_tool" "name" "use a tool advertised by tools/list" "Unknown tool."
    else if ltb 131072 arguments.size
    then refuse tools "request_too_large" "" "request arguments must stay below 128 KiB"
        "Request arguments exceed the size limit."
    else with_object tools name arguments.object_of

unfoldable pub finish : Tools → Envelope Members → Envelope Members
finish tools e =
    let e1 = attach_error_detail e in
    let e2 =
      warn_if (not (e1.status =ₛ "invalid_request") && tools.expired) e1 "TOOL_TIMEOUT"
        "tool_execution" "The tool execution budget expired; completed branches are retained."
        true in
    if tools.offline && not (e2.status =ₛ "invalid_request") then mark_offline_fixture e2 else e2

unfoldable pub call : Tools → String → Arguments → Envelope Members
call tools name arguments = finish tools (run tools name arguments)
