-- ===== src/Service/Dispatch/Tests.antt =====
-- The instances of the dispatch's theorems at concrete inputs.
use mcp_grand_lyon.Base.{true, false, none, some, ◌=ₛ◌}
use mcp_grand_lyon.Model.Envelope.{new_envelope}
use mcp_grand_lyon.Service.Dispatch.{
  bool, object, Members, no_members, member, Tools, Arguments, call,
}
use mcp_grand_lyon.Service.Dispatch.Reports.{IsExplained, call-IsExplained}

abbrev live : Members
live = member "departures" (object (member "realtime" (bool true) no_members)) no_members

abbrev tools : Tools
tools = record {
  now = 9;
  offline = true;
  expired = false;
  loaded = true;
  is_tool = λ name. name =ₛ "lyon_next_departures";
  check = λ name values. none;
  apply_defaults = λ name values. some values;
  handle = λ name values. new_envelope 9 "unavailable" "No stop index." live;
}

abbrev arguments : Arguments
arguments = record { size = 2; object_of = some no_members }

call-IsExplained_example : IsExplained (call tools "lyon_next_departures" arguments)
call-IsExplained_example = call-IsExplained tools "lyon_next_departures" arguments
