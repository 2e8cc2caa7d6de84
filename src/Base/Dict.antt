-- ===== src/Base/Dict.antt =====
-- Python's `dict` with string keys, in insertion order. A store to a key that is there keeps its
-- place, and `del` takes the key out.
use mathlib.Core.List.{List, [], ◌∷◌}
use mathlib.Core.Option
use mathlib.Core.Option.{Option, none, some}
use mathlib.Core.Bool.{Bool, true}
use mathlib.Core.Path.{◌≡◌, refl}
use mathlib.Core.Logic.{◌≢◌}
use native.Mathlib.Omega.{arith}
use text.Mathlib.TextEquality.{eq_iff}
use Prim.Native.Nat.{ℕ, ◌+◌, suc, ◌≤◌, ◌<◌}
use Prim.Native.String.{String}
use openstudio_mcp.Base.Tests.{◌==◌, string_eq, if◌then◌else◌}
use openstudio_mcp.Base.Lists.{length}

abbrev pub Dict {ℓ} : Type ℓ → Type ℓ
Dict V = List (String × V)

module _ {ℓ} {V : Type ℓ} where
  -- `d.get(k)`
  unfoldable pub lookup : String → Dict V → Option V
  lookup k [] = none
  lookup k ((j, v) ∷ d) = if k == j then some v else lookup k d

  -- `d[k] = v`
  unfoldable pub insert : String → V → Dict V → Dict V
  insert k v [] = (k, v) ∷ []
  insert k v ((j, w) ∷ d) = if k == j then (j, v) ∷ d else (j, w) ∷ insert k v d

  -- `d.pop(k, None)`
  unfoldable pub erase : String → Dict V → Dict V
  erase k [] = []
  erase k ((j, w) ∷ d) = let rest = erase k d in if k == j then rest else (j, w) ∷ rest

  -- `list(d)`
  unfoldable pub keys : Dict V → List String
  keys [] = []
  keys ((k, _) ∷ d) = k ∷ keys d

  -- `sum(1 for v in d.values() if p(v))`
  unfoldable pub count_where : (V → Bool) → Dict V → ℕ
  count_where p [] = 0
  count_where p ((k, v) ∷ d) = count_where p d + (if p v then 1 else 0)

  -- An update of every value in place, which may look at the key.
  unfoldable pub update_all : (String → V → V) → Dict V → Dict V
  update_all f [] = []
  update_all f ((k, v) ∷ d) = (k, f k v) ∷ update_all f d

  -- The keys are distinct, as in any Python dict.
  abbrev pub NodupKeys : Dict V → Type ℓ
  NodupKeys [] = Unit
  NodupKeys ((k, _) ∷ d) = (lookup k d ≡ none) × NodupKeys d

  pub lookup-nil : (k : String) → lookup k [] ≡ none
  unfolding lookup
  lookup-nil k = refl

  pub lookup-cons :
      (j k : String) (v : V) (d : Dict V)
      → lookup j ((k, v) ∷ d) ≡ (if j == k then some v else lookup j d)
  unfolding lookup
  lookup-cons j k v d = refl

  pub lookup-insert :
      (j k : String) (v : V) (d : Dict V)
      → lookup j (insert k v d) ≡ (if j == k then some v else lookup j d)
  unfolding insert lookup
  lookup-insert j k v [] = refl
  lookup-insert j k v ((i, w) ∷ d) =
      ground (arith, lookup-insert j k v d, eq_iff j k, eq_iff k i, eq_iff j i)

  pub lookup-erase :
      (j k : String) (d : Dict V) → lookup j (erase k d) ≡ (if j == k then none else lookup j d)
  unfolding erase lookup
  lookup-erase j k [] = ground arith
  lookup-erase j k ((i, w) ∷ d) =
      ground (arith, lookup-erase j k d, eq_iff j k, eq_iff k i, eq_iff j i)

  pub insert-NodupKeys : (k : String) (v : V) (d : Dict V) → NodupKeys d → NodupKeys (insert k v d)
  unfolding insert
  insert-NodupKeys k v [] _ = (lookup-nil k, tt)
  insert-NodupKeys k v ((j, w) ∷ d) (fresh, u) =
      ground (arith, insert-NodupKeys k v d u, lookup-insert j k v d, eq_iff j k, eq_iff k j)

  pub erase-NodupKeys : (k : String) (d : Dict V) → NodupKeys d → NodupKeys (erase k d)
  unfolding erase
  erase-NodupKeys k [] _ = tt
  erase-NodupKeys k ((j, w) ∷ d) (fresh, u) =
      ground (arith, erase-NodupKeys k d u, lookup-erase j k d)

  pub length-insert :
      (k : String) (v : V) (d : Dict V)
      → length (insert k v d) ≡ (elim (lookup k d) [ none ↦ suc (length d) | some _ ↦ length d ])
  unfolding insert lookup
  length-insert k v [] = refl
  length-insert k v ((j, w) ∷ d) = ground (arith, length-insert k v d)

  pub length-erase-le : (k : String) (d : Dict V) → length (erase k d) ≤ length d
  unfolding erase
  length-erase-le k [] = omega arith
  length-erase-le k ((j, w) ∷ d) = ground (arith, length-erase-le k d)

  -- Taking out a key that is there shortens the dict.
  pub length-erase-lt :
      (k : String) (d : Dict V) → lookup k d ≢ none → length (erase k d) < length d
  unfolding erase lookup
  length-erase-lt k [] h = absurd (h refl)
  length-erase-lt k ((j, w) ∷ d) h = ground (arith, length-erase-lt k d, length-erase-le k d)

module _ {ℓ} {V : Type ℓ} where
  pub lookup-update_all :
      (f : String → V → V) (k : String) (d : Dict V)
      → lookup k (update_all f d) ≡ Option.map (f k) (lookup k d)
  unfolding lookup update_all
  lookup-update_all f k [] = refl
  lookup-update_all f k ((j, v) ∷ d) = ground (arith, lookup-update_all f k d, eq_iff k j)

  -- A write over the value `v` of a key changes the count by that of `v` and that of the new value.
  pub count_where-insert :
      (p : V → Bool) (k : String) (v w : V) (d : Dict V)
      → lookup k d ≡ some v
      → count_where p (insert k w d) + (if p v then 1 else 0)
        ≡ count_where p d + (if p w then 1 else 0)
  unfolding count_where insert lookup
  count_where-insert p k v w [] h = absurd (cc)
  count_where-insert p k v w ((j, x) ∷ d) h =
      ground (arith, count_where-insert p k v w d, eq_iff k j)

  pub count_where-update_all :
      (p : V → Bool) (f : String → V → V) (d : Dict V)
      → ((k : String) (v : V) → p (f k v) ≡ true → p v ≡ true)
      → count_where p (update_all f d) ≤ count_where p d
  unfolding count_where update_all
  count_where-update_all p f [] h = omega arith
  count_where-update_all p f ((k, v) ∷ d) h = ground (arith, count_where-update_all p f d h, h k v)

pub ruleset dict_laws = (lookup-nil, lookup-insert, lookup-erase)
