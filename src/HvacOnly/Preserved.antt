-- ===== src/HvacOnly/Preserved.antt =====
-- What an empty difference in mcp_server/skills/comstock/hvac_only_policy.py shows of two snapshots.
use openstudio_mcp.Base.{
  ℕ, zero, suc, ◌+◌, ◌≤◌, ◌<◌, max, String, Bool, true, false, Option, none, some, List, [], ◌∷◌,
  ◌++◌, ◌≡◌, refl, sym, ◌∙◌, inl, inr, ◌==◌, string_eq, contains, length, ltb, arith, Bool-cases,
}
use openstudio_mcp.Base.Dict
use openstudio_mcp.Base.Dict.{Dict, NodupKeys, lookup-cons}
use openstudio_mcp.HvacOnly.{
  classify, is_hvac, Entry, field_at, field_change, field_changes, entry_changes, old_changes,
  all_old, added_unless, new_changes, all_new, starts_with_any, allowed_new_prefixes,
}
use text.Mathlib.TextEquality.{eq_iff}

pub append-nil_iff {ℓ} : {A : Type ℓ} (xs ys : List A) → xs ++ ys ≡ [] → (xs ≡ []) × (ys ≡ [])
append-nil_iff [] ys h = (refl, h)
append-nil_iff (x ∷ xs) ys h = absurd (cc)

field_at-past : (xs : List String) (i : ℕ) → length xs ≤ i → field_at xs i ≡ ""
unfolding field_at
field_at-past [] i h = refl
field_at-past (x ∷ xs) zero h = absurd (omega (arith, h))
field_at-past (x ∷ xs) (suc i) h = field_at-past xs i (omega (arith, h))

module _ (handle : String) (entry after : Entry) where
  field_changes-nil :
      (n i j : ℕ)
      → field_changes n i handle entry after ≡ []
      → i ≤ j
      → j < i + n
      → field_at entry.fields j ≡ field_at after.fields j
  unfolding field_changes field_change
  field_changes-nil zero i j h le lt = absurd (omega (arith, le, lt))
  field_changes-nil (suc n) i j h le lt =
      let (one, rest) =
        append-nil_iff (field_change handle entry after i)
          (field_changes n (i + 1) handle entry after) h in
      ground (
        arith,
        one,
        field_changes-nil n (i + 1) j rest,
        eq_iff (field_at entry.fields i) (field_at after.fields i),
        le,
        lt,
      )

  entry_changes-nil :
      (j : ℕ)
      → entry_changes handle entry (some after) ≡ []
      → field_at entry.fields j ≡ field_at after.fields j
  unfolding entry_changes field_at
  entry_changes-nil j h =
      let width = max (length entry.fields) (length after.fields) in
      elim (Bool-cases (ltb j width)) [
        | inl within ↦ field_changes-nil width 0 j h (omega arith) (ground arith)
        | inr past ↦
            field_at-past entry.fields j (ground arith)
            ∙ sym (field_at-past after.fields j (ground arith))
      ]

  unfoldable pub AreSame : Type 0
  AreSame = (j : ℕ) → field_at entry.fields j ≡ field_at after.fields j

  pub field_changes-same : (n i : ℕ) → AreSame → field_changes n i handle entry after ≡ []
  unfolding field_changes field_change AreSame
  field_changes-same zero i same = refl
  field_changes-same (suc n) i same =
      rw ((eq_iff (field_at entry.fields i) (field_at after.fields i)).1 (same i))
        (field_changes-same n (i + 1) same)

-- No object outside the HVAC categories is gone or has a field changed, and none has come but of the
-- kinds that may. A field that an object does not have reads as blank.
pub record IsPreserved (pre post : Dict Entry) (swh_handles : List String) : Type 0 where
  pub kept :
      (handle : String) (entry : Entry)
      → Dict.lookup handle pre ≡ some entry
      → is_hvac (classify entry.type_name (contains swh_handles handle)) ≡ false
      → (after : Entry) × (Dict.lookup handle post ≡ some after)
        × ((j : ℕ) → field_at entry.fields j ≡ field_at after.fields j)
  pub none_new :
      (handle : String) (entry : Entry)
      → Dict.lookup handle post ≡ some entry
      → Dict.lookup handle pre ≡ none
      → starts_with_any entry.type_name allowed_new_prefixes ≡ false
      → is_hvac (classify entry.type_name false) ≡ true

module _ (swh_handles : List String) (post : Dict Entry) where
  old_changes-nil :
      (handle : String) (entry : Entry) (o : Option Entry)
      → Dict.lookup handle post ≡ o
      → entry_changes handle entry o ≡ []
      → (after : Entry) × (Dict.lookup handle post ≡ some after)
        × ((j : ℕ) → field_at entry.fields j ≡ field_at after.fields j)
  unfolding entry_changes
  old_changes-nil handle entry none e h = absurd (cc)
  old_changes-nil handle entry (some after) e h =
      (after, e, λ j. entry_changes-nil handle entry after j h)

  pub all_old-nil :
      (pre : Dict Entry) (handle : String) (entry : Entry)
      → all_old swh_handles post pre ≡ []
      → Dict.lookup handle pre ≡ some entry
      → is_hvac (classify entry.type_name (contains swh_handles handle)) ≡ false
      → (after : Entry) × (Dict.lookup handle post ≡ some after)
        × ((j : ℕ) → field_at entry.fields j ≡ field_at after.fields j)
  unfolding all_old old_changes Dict.lookup
  all_old-nil [] handle entry h there other = absurd (cc)
  all_old-nil ((k, e) ∷ pre) handle entry h there other =
      let (here, rest) =
        append-nil_iff (old_changes swh_handles post k e) (all_old swh_handles post pre) h in
      elim (Bool-cases (handle == k)) [
        | inr ne ↦ all_old-nil pre handle entry rest (ground arith) other
        | inl eq ↦
            old_changes-nil handle entry (Dict.lookup handle post) refl
              (ground (arith, here, other, there, (eq_iff handle k).0 eq))
      ]

  pub all_old-kept :
      (pre : Dict Entry)
      → NodupKeys pre
      → ((handle : String) (entry : Entry)
          → Dict.lookup handle pre ≡ some entry
          → old_changes swh_handles post handle entry ≡ [])
      → all_old swh_handles post pre ≡ []
  unfolding all_old
  all_old-kept [] nodup each = refl
  all_old-kept ((k, e) ∷ pre) (new, nodup) each =
      rw (each k e (ground (arith, lookup-cons k k e pre, eq_iff k k))) (
        all_old-kept pre nodup
          (λ h x there. each h x (ground (arith, lookup-cons h k e pre, there, new, eq_iff h k))))

added_unless-nil :
    (may_come is_own : Bool) (handle : String) (entry : Entry)
    → added_unless may_come is_own handle entry ≡ []
    → may_come ≡ false
    → is_own ≡ true
unfolding added_unless
added_unless-nil true own handle entry h odd = absurd (cc)
added_unless-nil false true handle entry h odd = refl
added_unless-nil false false handle entry h odd = absurd (cc)

module _ (pre : Dict Entry) where
  new_changes-nil :
      (handle : String) (entry : Entry) (o : Option Entry)
      → o ≡ none
      → new_changes handle entry o ≡ []
      → starts_with_any entry.type_name allowed_new_prefixes ≡ false
      → is_hvac (classify entry.type_name false) ≡ true
  unfolding new_changes
  new_changes-nil handle entry (some before) e h odd = absurd (cc)
  new_changes-nil handle entry none e h odd = added_unless-nil _ _ handle entry h odd

  pub all_new-nil :
      (post : Dict Entry) (handle : String) (entry : Entry)
      → all_new pre post ≡ []
      → Dict.lookup handle post ≡ some entry
      → Dict.lookup handle pre ≡ none
      → starts_with_any entry.type_name allowed_new_prefixes ≡ false
      → is_hvac (classify entry.type_name false) ≡ true
  unfolding all_new Dict.lookup
  all_new-nil [] handle entry h there new odd = absurd (cc)
  all_new-nil ((k, e) ∷ post) handle entry h there new odd =
      let (here, rest) =
        append-nil_iff (new_changes k e (Dict.lookup k pre)) (all_new pre post) h in
      elim (Bool-cases (handle == k)) [
        | inr ne ↦ all_new-nil post handle entry rest (ground arith) new odd
        | inl eq ↦
            let same : e ≡ entry = ground (arith, there, eq) in
            let there' = (eq_iff handle k).0 eq in
            new_changes-nil handle entry (Dict.lookup handle pre) new (rw (there', sym same) here)
              odd
      ]

  pub all_new-none :
      (post : Dict Entry)
      → NodupKeys post
      → ((handle : String) (entry : Entry)
          → Dict.lookup handle post ≡ some entry
          → new_changes handle entry (Dict.lookup handle pre) ≡ [])
      → all_new pre post ≡ []
  unfolding all_new
  all_new-none [] nodup each = refl
  all_new-none ((k, e) ∷ post) (new, nodup) each =
      rw (each k e (ground (arith, lookup-cons k k e post, eq_iff k k))) (
        all_new-none post nodup
          (λ h x there. each h x (ground (arith, lookup-cons h k e post, there, new, eq_iff h k))))
