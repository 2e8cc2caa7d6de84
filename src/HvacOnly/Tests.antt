-- ===== src/HvacOnly/Tests.antt =====
-- The difference of small snapshots, and the theorem on it there.
use openstudio_mcp.Base.{String, false, List, [], ◌∷◌, ◌≡◌, ◌↔◌, refl}
use openstudio_mcp.Base.Dict
use openstudio_mcp.Base.Dict.{Dict, NodupKeys}
use openstudio_mcp.HvacOnly.{Entry, changed, diff_snapshots, classify, swh}
use openstudio_mcp.HvacOnly.Preserved.{IsPreserved}
use openstudio_mcp.HvacOnly.Difference.{diff_snapshots-nil_iff}

abbrev space : List String → Entry
space fields = record {
  type_name = "OS:Space";
  name = "s1";
  fields = fields;
  field_names = "Name" ∷ [];
}

abbrev coil : Entry
coil = record { type_name = "OS:Coil:Heating"; name = "c"; fields = []; field_names = [] }

-- To unfold this is to unfold what the differences of the tests compute with.
pre : Dict Entry
unfolding diff_snapshots classify Dict.lookup
pre = ("h1", space ("a" ∷ [])) ∷ ("h2", coil) ∷ []

-- The coil went; a blank field more is no change.
swapped : diff_snapshots pre (("h1", space ("a" ∷ "" ∷ [])) ∷ []) [] ≡ []
unfolding pre
swapped = refl

one_field :
    diff_snapshots pre (("h1", space ("a" ∷ "b" ∷ [])) ∷ []) []
    ≡ changed "h1" (space ("a" ∷ [])) 1 "" "" "b" ∷ []
unfolding pre
one_field = refl

heater : classify "OS:WaterHeater:Mixed" false ≡ swh
unfolding pre
heater = refl

pre-NodupKeys : NodupKeys pre
unfolding pre
pre-NodupKeys = (refl, (refl, tt))

post-NodupKeys : NodupKeys (("h1", space ("a" ∷ "" ∷ [])) ∷ [])
unfolding pre
post-NodupKeys = (refl, tt)

diff_snapshots-nil_iff_example :
    (diff_snapshots pre (("h1", space ("a" ∷ "" ∷ [])) ∷ []) [] ≡ [])
    ↔ IsPreserved pre (("h1", space ("a" ∷ "" ∷ [])) ∷ []) []
diff_snapshots-nil_iff_example =
    diff_snapshots-nil_iff pre (("h1", space ("a" ∷ "" ∷ [])) ∷ []) [] pre-NodupKeys post-NodupKeys
