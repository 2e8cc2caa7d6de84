-- ===== src/HvacOnly.antt =====
-- The check behind an HVAC-only change in mcp_server/skills/comstock/hvac_only_policy.py: which
-- objects of a model are HVAC, and the differences between two snapshots. A snapshot is listed in
-- the order of its handles, as `sorted` gives them.
pub mod Preserved
pub mod Difference
mod Tests
use text.Mathlib.Text.{starts_with}
use openstudio_mcp.Base.{
  ℕ, zero, suc, ◌+◌, max, String, Bool, true, false, not, Option, none, some, List, [], ◌∷◌, ◌++◌,
  ◌||◌, if◌then◌else◌, ◌==◌, string_eq, contains, any, length, get_elem?, take,
}
use openstudio_mcp.Base.Dict
use openstudio_mcp.Base.Dict.{Dict}

abbrev pub hvac_type_prefixes : List String
hvac_type_prefixes =
    "OS:AirLoopHVAC" ∷ "OS:Node" ∷ "OS:Connection" ∷ "OS:PortList" ∷ "OS:Connector:" ∷ "OS:Pipe:"
    ∷ "OS:Duct" ∷ "OS:Coil:" ∷ "OS:Fan:" ∷ "OS:Chiller:" ∷ "OS:Boiler:" ∷ "OS:CoolingTower:"
    ∷ "OS:FluidCooler:" ∷ "OS:HeatPump:" ∷ "OS:HeatExchanger:" ∷ "OS:AirTerminal:" ∷ "OS:ZoneHVAC:"
    ∷ "OS:Controller:" ∷ "OS:SetpointManager:" ∷ "OS:AvailabilityManager" ∷ "OS:Sizing:"
    ∷ "OS:EvaporativeCooler:" ∷ "OS:Humidifier:" ∷ "OS:District" ∷ "OS:ModelObjectList"
    ∷ "OS:Curve:" ∷ "OS:Table:" ∷ "OS:PlantLoop" ∷ "OS:PlantEquipmentOperation:" ∷ "OS:Pump:"
    ∷ "OS:HeaderedPumps:" ∷ "OS:ThermalZone" ∷ "OS:DesignSpecification:OutdoorAir"
    ∷ "OS:AdditionalProperties" ∷ "OS:ThermalStorage:" ∷ "OS:SolarCollector" ∷ "OS:Generator:"
    ∷ "OS:ElectricLoadCenter:" ∷ "OS:Refrigeration:" ∷ []

abbrev pub swh_type_prefixes : List String
swh_type_prefixes = "OS:WaterHeater:" ∷ []

abbrev pub allowed_new_prefixes : List String
allowed_new_prefixes = "OS:Schedule:" ∷ "OS:ScheduleTypeLimits" ∷ []

-- `type_name.startswith(prefixes)`
unfoldable pub starts_with_any : String → List String → Bool
starts_with_any name prefixes = any (starts_with name) prefixes

pub data Kind : Type 0 where
  hvac swh non_hvac : Kind

unfoldable pub classify : String → Bool → Kind
unfolding starts_with_any
classify type_name swh_handle =
    if swh_handle
    then swh
    else if starts_with_any type_name swh_type_prefixes
    then swh
    else if starts_with_any type_name hvac_type_prefixes
    then hvac
    else non_hvac

abbrev pub is_hvac : Kind → Bool
is_hvac hvac = true
is_hvac _ = false

-- An object, without its handle.
pub record Entry : Type 0 where
  pub type_name : String
  pub name : String
  pub fields : List String
  pub field_names : List String

pub data Change : Type 0 where
  removed added : String → Entry → Change
  changed : String → Entry → ℕ → String → String → String → Change

-- `fields[i] if i < len(fields) else ""`
unfoldable pub field_at : List String → ℕ → String
field_at fields i = elim (get_elem? fields i) [ none ↦ "" | some f ↦ f ]

unfoldable pub field_change : String → Entry → Entry → ℕ → List Change
unfolding field_at
field_change handle entry after i =
    let before = field_at entry.fields i in
    let now = field_at after.fields i in
    if not (before == now)
    then changed handle entry i (field_at entry.field_names i) before now ∷ []
    else []

-- `for i in range(width)`, with `n` rounds to go from `i`.
unfoldable pub field_changes : ℕ → ℕ → String → Entry → Entry → List Change
unfolding field_change
field_changes zero i handle entry after = []
field_changes (suc n) i handle entry after =
    field_change handle entry after i ++ field_changes n (i + 1) handle entry after

unfoldable pub entry_changes : String → Entry → Option Entry → List Change
unfolding field_changes
entry_changes handle entry none = removed handle entry ∷ []
entry_changes handle entry (some after) =
    field_changes (max (length entry.fields) (length after.fields)) 0 handle entry after

-- Of one object of the first snapshot.
unfoldable pub old_changes : List String → Dict Entry → String → Entry → List Change
unfolding entry_changes classify
old_changes swh_handles post handle entry =
    if is_hvac (classify entry.type_name (contains swh_handles handle))
    then []
    else entry_changes handle entry (Dict.lookup handle post)

unfoldable pub all_old : List String → Dict Entry → Dict Entry → List Change
unfolding old_changes
all_old swh_handles post [] = []
all_old swh_handles post ((handle, entry) ∷ pre) =
    old_changes swh_handles post handle entry ++ all_old swh_handles post pre

unfoldable pub added_unless : Bool → Bool → String → Entry → List Change
added_unless may_come is_own handle entry =
    if may_come then [] else if is_own then [] else added handle entry ∷ []

-- Of one object of the second snapshot, with what the first holds under its handle.
unfoldable pub new_changes : String → Entry → Option Entry → List Change
unfolding added_unless
new_changes handle entry (some before) = []
new_changes handle entry none =
    added_unless (starts_with_any entry.type_name allowed_new_prefixes)
      (is_hvac (classify entry.type_name false)) handle entry

unfoldable pub all_new : Dict Entry → Dict Entry → List Change
unfolding new_changes
all_new pre [] = []
all_new pre ((handle, entry) ∷ post) =
    new_changes handle entry (Dict.lookup handle pre) ++ all_new pre post

unfoldable pub diff_snapshots : Dict Entry → Dict Entry → List String → List Change
unfolding all_old all_new
diff_snapshots pre post swh_handles = all_old swh_handles post pre ++ all_new pre post

abbrev pub max_reported_changes : ℕ
max_reported_changes = 50

unfoldable pub bound_changes : List Change → List Change × ℕ
bound_changes changes = (take max_reported_changes changes, length changes)
