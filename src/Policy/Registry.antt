-- ===== src/Policy/Registry.antt =====
-- The collecting facade of mcp_server/tool_registry.py, through which each skill registers its tools.
use openstudio_mcp.Base.{String, not, Option, none, some, List, [], ◌∷◌, ◌++◌, if◌then◌else◌, map}
use openstudio_mcp.Base.Dict
use openstudio_mcp.Base.Dict.{Dict}
use openstudio_mcp.Policy.{Policy, tool_enabled}

-- `skill` is the `package` of the source.
pub record ToolDescriptor : Type 0 where
  pub name : String
  pub skill : String
  pub tags : List String
  pub description : String

-- `_DESCRIPTORS`, `_SEEN`, and the tools that the real server was given.
pub record Registry : Type 0 where
  pub descriptors : Dict ToolDescriptor
  pub seen : List String
  pub served : List String

-- `reset_descriptors`
abbrev pub empty : Registry
empty = record { descriptors = []; seen = []; served = [] }

unfoldable pub add_tool : ToolDescriptor → Option ToolDescriptor → Registry → Option Registry
add_tool t (some other) r = none
add_tool t none r = some (record r {
  descriptors = Dict.insert t.name t r.descriptors;
  served = r.served ++ (t.name ∷ []);
})

-- The decorator of `CollectingMCP.tool`; `none` is its ValueError for a duplicate.
unfoldable pub tool : (String → String) → Policy → ToolDescriptor → Registry → Option Registry
unfolding add_tool
tool lower p t r =
    let r' : Registry = record r { seen = t.name ∷ r.seen } in
    if not (tool_enabled lower p t.name)
    then some r'
    else add_tool t (Dict.lookup t.name r'.descriptors) r'

unfoldable pub and_register : Option Registry → (Registry → Option Registry) → Option Registry
and_register none f = none
and_register (some r) f = f r

-- The registration of every skill, in its order.
unfoldable pub register_all :
    (String → String) → Policy → List ToolDescriptor → Registry → Option Registry
unfolding tool and_register
register_all lower p [] r = some r
register_all lower p (t ∷ ts) r = and_register (tool lower p t r) (register_all lower p ts)

abbrev pub names_of : List ToolDescriptor → List String
names_of = map (λ t. t.name)
