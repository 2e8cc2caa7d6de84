-- ===== src/HvacOnly/Difference.antt =====
-- When the difference of mcp_server/skills/comstock/hvac_only_policy.py is empty.
use openstudio_mcp.Base.{
  max, String, Bool, true, false, Option, none, some, List, [], ◌≡◌, ◌↔◌, refl, inl, inr, string_eq,
  contains, length, Bool-cases,
}
use openstudio_mcp.Base.Dict
use openstudio_mcp.Base.Dict.{Dict, NodupKeys, lookup-cons}
use openstudio_mcp.HvacOnly.{
  classify, is_hvac, Entry, entry_changes, old_changes, all_old, added_unless, new_changes, all_new,
  diff_snapshots,
}
use openstudio_mcp.HvacOnly.Preserved.{
  append-nil_iff, AreSame, field_changes-same, IsPreserved, all_old-nil, all_old-kept, all_new-nil,
  all_new-none,
}

module _ (pre post : Dict Entry) (swh_handles : List String)
    (p : IsPreserved pre post swh_handles) where
  entry_changes-kept :
      (handle : String) (entry after : Entry) (o : Option Entry)
      → o ≡ some after
      → AreSame handle entry after
      → entry_changes handle entry o ≡ []
  unfolding entry_changes
  entry_changes-kept handle entry after o e same = rw e (
      field_changes-same handle entry after (max (length entry.fields) (length after.fields)) 0
        same)

  old_changes-kept :
      (handle : String) (entry : Entry)
      → Dict.lookup handle pre ≡ some entry
      → old_changes swh_handles post handle entry ≡ []
  unfolding old_changes AreSame
  old_changes-kept handle entry there =
      elim (Bool-cases (is_hvac (classify entry.type_name (contains swh_handles handle)))) [
        | inl own ↦ rw own refl
        | inr other ↦
            let (after, e, same) = p.kept handle entry there other in
            rw other (entry_changes-kept handle entry after (Dict.lookup handle post) e same)
      ]

  added_unless-allowed :
      (may_come is_own : Bool) (handle : String) (entry : Entry)
      → (may_come ≡ false → is_own ≡ true)
      → added_unless may_come is_own handle entry ≡ []
  unfolding added_unless
  added_unless-allowed true own handle entry h = refl
  added_unless-allowed false own handle entry h = rw (h refl) refl

  new_changes-none :
      (handle : String) (entry : Entry) (o : Option Entry)
      → Dict.lookup handle pre ≡ o
      → Dict.lookup handle post ≡ some entry
      → new_changes handle entry o ≡ []
  unfolding new_changes
  new_changes-none handle entry (some before) e there = refl
  new_changes-none handle entry none e there =
      added_unless-allowed _ _ handle entry (p.none_new handle entry there e)

-- Of two snapshots with distinct handles the difference is empty exactly if the change was HVAC
-- only: each object of another category is still there with every field as it was, and none has
-- come but of the kinds that may.
pub diff_snapshots-nil_iff :
    (pre post : Dict Entry) (swh_handles : List String)
    → NodupKeys pre
    → NodupKeys post
    → (diff_snapshots pre post swh_handles ≡ []) ↔ IsPreserved pre post swh_handles
unfolding diff_snapshots
diff_snapshots-nil_iff pre post swh_handles np nq = (
  (λ h.
      let (old, new) = append-nil_iff (all_old swh_handles post pre) (all_new pre post) h in
      record {
        kept = λ handle entry. all_old-nil swh_handles post pre handle entry old;
        none_new = λ handle entry. all_new-nil pre post handle entry new;
      }),
  λ p.
      rw
        (
          all_old-kept swh_handles post pre np (old_changes-kept pre post swh_handles p),
          all_new-none pre post nq (λ h e there.
              new_changes-none pre post swh_handles p h e (Dict.lookup h pre) refl there),
        )
        refl,
)
