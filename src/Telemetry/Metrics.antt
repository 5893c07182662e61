-- ===== src/Telemetry/Metrics.antt =====
-- pkg/telemetry/metrics.go: what each function records.
pub mod Groups
pub mod Gauge
use make_mcp.Common.{
  ℕ, ◌+◌, Bool, true, false, not, ◌&&◌, Option, none, some, List, [], ◌∷◌, if◌then◌else◌,
}
use make_mcp.Text.{Text, codes, ◌=?◌}
use make_mcp.Schema.{Recipe, risk_high}
use make_mcp.Config.{Duration}

-- The fields of `Instruments`.
pub data Instrument : Type 0 where
  tools_listed_total tools_list_requests_total tools_list_request_latency_seconds : Instrument
  tools_list_bytes_in tools_list_bytes_out tool_reload_total tool_invocations_total : Instrument
  tool_invocation_duration tool_invocation_bytes_in tool_invocation_bytes_out : Instrument
  connected_clients tools_registered : Instrument

-- `attribute.KeyValue`.
pub data Attribute : Type 0 where
  text : Text → Text → Attribute
  flag : Text → Bool → Attribute

-- What an instrument is given: a number, or a duration, which goes out in seconds.
pub data Amount : Type 0 where
  number : ℕ → Amount
  seconds : Duration → Amount

-- One `Add` or `Record`.
pub record Measurement : Type 0 where
  pub instrument : Instrument
  pub amount : Amount
  pub attributes : List Attribute

abbrev pub status_success : Text
status_success = codes "success"

abbrev pub status_failure : Text
status_failure = codes "fail"

-- `resolveHint`.
unfoldable pub resolve_hint : Option Bool → Bool → Bool
resolve_hint (some b) default = b
resolve_hint none default = default

-- `groupKey`.
pub record GroupKey : Type 0 where
  pub risk : Text
  pub read_only : Bool
  pub destructive : Bool
  pub idempotent : Bool
  pub open_world : Bool

-- The key of a recipe.
unfoldable pub group_of : Recipe → GroupKey
unfolding resolve_hint ◌=?◌
group_of r = record {
  risk = r.risk;
  read_only = resolve_hint r.tool_hints.read_only false;
  destructive = resolve_hint r.tool_hints.destructive (r.risk =? risk_high);
  idempotent = resolve_hint r.tool_hints.idempotent false;
  open_world = resolve_hint r.tool_hints.open_world true;
}

-- The attributes of a key.
unfoldable pub group_attributes : GroupKey → List Attribute
group_attributes k =
    text (codes "risk") k.risk
    ∷ flag (codes "read_only") k.read_only
    ∷ flag (codes "destructive") k.destructive
    ∷ flag (codes "idempotent") k.idempotent
    ∷ flag (codes "open_world") k.open_world
    ∷ []

-- `recipeAttrs`.
unfoldable pub recipe_attrs : Recipe → Text → Bool → List Attribute
unfolding resolve_hint ◌=?◌
recipe_attrs r status streaming =
    text (codes "tool") r.id
    ∷ text (codes "risk") r.risk
    ∷ flag (codes "read_only") (resolve_hint r.tool_hints.read_only false)
    ∷ flag (codes "destructive") (resolve_hint r.tool_hints.destructive (r.risk =? risk_high))
    ∷ flag (codes "idempotent") (resolve_hint r.tool_hints.idempotent false)
    ∷ flag (codes "open_world") (resolve_hint r.tool_hints.open_world true)
    ∷ text (codes "status") status
    ∷ flag (codes "streaming") streaming
    ∷ []

abbrev pub measure : Instrument → Amount → List Attribute → Measurement
measure i amount attributes = record { instrument = i; amount = amount; attributes = attributes }

-- `RecordToolReload`.
unfoldable pub record_tool_reload : Text → Text → List Measurement
record_tool_reload file status =
    measure tool_reload_total (number 1)
      (text (codes "file") file ∷ text (codes "status") status ∷ [])
    ∷ []

-- `RecordToolInvocation`.
unfoldable pub record_tool_invocation : Recipe → Text → Duration → Bool → List Measurement
unfolding recipe_attrs
record_tool_invocation r status elapsed streaming =
    let attrs = recipe_attrs r status streaming in
    measure tool_invocations_total (number 1) attrs
    ∷ measure tool_invocation_duration (seconds elapsed) attrs
    ∷ []

-- `RecordToolInvocationBytes`.
unfoldable pub record_tool_invocation_bytes : Recipe → Text → ℕ → ℕ → Bool → List Measurement
unfolding recipe_attrs
record_tool_invocation_bytes r status bytes_in bytes_out streaming =
    let attrs = recipe_attrs r status streaming in
    measure tool_invocation_bytes_in (number bytes_in) attrs
    ∷ measure tool_invocation_bytes_out (number bytes_out) attrs
    ∷ []

-- `RecordToolsListRequest`.
unfoldable pub record_tools_list_request : Text → Duration → List Measurement
record_tools_list_request status d =
    let attrs = text (codes "status") status ∷ [] in
    measure tools_list_requests_total (number 1) attrs
    ∷ measure tools_list_request_latency_seconds (seconds d) attrs
    ∷ []

-- `RecordToolsListed`.
unfoldable pub record_tools_listed : List Recipe → List Measurement
unfolding group_of group_attributes
record_tools_listed [] = []
record_tools_listed (r ∷ rs) =
    measure tools_listed_total (number 1) (group_attributes (group_of r)) ∷ record_tools_listed rs

-- `RecordToolsListBytes`.
unfoldable pub record_tools_list_bytes : Text → ℕ → ℕ → List Measurement
record_tools_list_bytes status bytes_in bytes_out =
    let attrs = text (codes "status") status ∷ [] in
    measure tools_list_bytes_in (number bytes_in) attrs
    ∷ measure tools_list_bytes_out (number bytes_out) attrs
    ∷ []

-- `==` of flags, and of keys.
unfoldable pub ◌=b◌ : Bool → Bool → Bool
◌=b◌ true b = b
◌=b◌ false b = not b

unfoldable pub same_group : GroupKey → GroupKey → Bool
unfolding ◌=?◌ ◌=b◌
same_group j k =
    j.risk =? k.risk
    && ◌=b◌ j.read_only k.read_only
    && ◌=b◌ j.destructive k.destructive
    && ◌=b◌ j.idempotent k.idempotent
    && ◌=b◌ j.open_world k.open_world

-- The map `counts`.
abbrev pub Counts : Type 0
Counts = List (GroupKey × ℕ)

-- `counts[key]++`.
unfoldable pub add_one : GroupKey → Counts → Counts
add_one k [] = (k, 1) ∷ []
add_one k ((j, n) ∷ counts) =
    if same_group j k then (j, n + 1) ∷ counts else (j, n) ∷ add_one k counts

unfoldable pub count_groups : Counts → List Recipe → Counts
unfolding add_one group_of
count_groups counts [] = counts
count_groups counts (r ∷ rs) = count_groups (add_one (group_of r) counts) rs

unfoldable pub record_groups : Counts → List Measurement
unfolding group_attributes
record_groups [] = []
record_groups ((k, n) ∷ counts) =
    measure tools_registered (number n) (group_attributes k) ∷ record_groups counts

-- `RecordToolsRegistered`; `order` hands out the entries of the map in the order of the loop over it.
unfoldable pub record_tools_registered : (Counts → Counts) → List Recipe → List Measurement
unfolding count_groups record_groups
record_tools_registered order rs = record_groups (order (count_groups [] rs))
