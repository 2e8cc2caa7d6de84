-- ===== src/Wizard/Covering.antt =====
-- The indices of the wizard's two dicts.
use openstudio_mcp.Base.{
  ℕ, suc, ◌+◌, ◌≤◌, String, some, List, [], ◌∷◌, ◌&&◌, ◌≡◌, refl, ap, length, if◌then◌else◌, ltb,
  leb, ◌==◌, string_eq, ℕ_eq, arith,
}
use openstudio_mcp.Wizard.{Row, State, find, remove, set, enumerate}
use openstudio_mcp.Wizard.Batches.{assign_one}

module _ {ℓ} {V : Type ℓ} where
  -- How often an index is a key.
  unfoldable pub count_key : ℕ → List (ℕ × V) → ℕ
  count_key i [] = 0
  count_key i ((j, v) ∷ d) = (if i == j then 1 else 0) + count_key i d

  pub count_key-remove :
      (i j : ℕ) (d : List (ℕ × V))
      → count_key i (remove j d) ≡ (if i == j then 0 else count_key i d)
  unfolding count_key remove
  count_key-remove i j [] = ground arith
  count_key-remove i j ((k, v) ∷ d) = ground (arith, count_key-remove i j d)

  length-remove : (j : ℕ) (d : List (ℕ × V)) → length (remove j d) + count_key j d ≡ length d
  unfolding count_key remove
  length-remove j [] = omega arith
  length-remove j ((k, v) ∷ d) = ground (arith, length-remove j d)

  count_key-set :
      (i j : ℕ) (v : V) (d : List (ℕ × V))
      → count_key j d ≡ 0
      → count_key i (set j v d) ≡ count_key i d + (if i == j then 1 else 0)
  unfolding count_key set
  count_key-set i j v [] h = omega arith
  count_key-set i j v ((k, w) ∷ d) h = ground (arith, count_key-set i j v d)

  length-set :
      (j : ℕ) (v : V) (d : List (ℕ × V)) → count_key j d ≡ 0 → length (set j v d) ≡ suc (length d)
  unfolding count_key set
  length-set j v [] h = refl
  length-set j v ((k, w) ∷ d) h = ground (arith, length-set j v d)

  pub find-count_key : (i : ℕ) (d : List (ℕ × V)) (v : V) → find i d ≡ some v → 1 ≤ count_key i d
  unfolding find count_key
  find-count_key i [] v h = absurd (ground arith)
  find-count_key i ((j, w) ∷ d) v h = ground (arith, find-count_key i d v)

count_key-enumerate :
    (i k : ℕ) (rs : List Row)
    → count_key i (enumerate k rs) ≡ (if leb k i && ltb i (k + length rs) then 1 else 0)
unfolding count_key enumerate
count_key-enumerate i k [] = ground arith
count_key-enumerate i k (r ∷ rs) = ground (arith, count_key-enumerate i (suc k) rs)

length-enumerate : (k : ℕ) (rs : List Row) → length (enumerate k rs) ≡ length rs
unfolding enumerate
length-enumerate k [] = refl
length-enumerate k (r ∷ rs) = ap suc (length-enumerate (suc k) rs)

-- The spaces of a wizard of `n` spaces: each is pending or assigned, once, and there is no other.
pub record Covers (n : ℕ) (s : State) : Type 0 where
  pub each : (i : ℕ) → count_key i s.pending + count_key i s.assigned ≡ (if ltb i n then 1 else 0)
  pub sized : length s.pending + length s.assigned ≡ n

pub Covers-start :
    (g : ℕ) (rs : List Row)
    → Covers (length rs) (record {
      model_generation = g;
      pending = enumerate 0 rs;
      assigned = [];
      templates = [];
      building_types = [];
      valid_combos = [];
    })
unfolding count_key
Covers-start g rs = record {
  each = λ i. ground (arith, count_key-enumerate i 0 rs);
  sized = omega (arith, length-enumerate 0 rs);
}

-- A pending index is so once, and not assigned.
once :
    (n : ℕ) (j : ℕ) (s : State)
    → Covers n s
    → 1 ≤ count_key j s.pending
    → (count_key j s.pending ≡ 1) × (count_key j s.assigned ≡ 0)
once n j s h here = (ground (arith, h.each j), ground (arith, h.each j))

pub Covers-assign_one :
    (n : ℕ) (name : String) (j : ℕ) (s : State)
    → Covers n s
    → 1 ≤ count_key j s.pending
    → Covers n (assign_one name j s)
unfolding assign_one
Covers-assign_one n name j s h here =
    let (one, fresh) = once n j s h here in
    record {
      each = λ i. ground (
        arith,
        count_key-remove i j s.pending,
        count_key-set i j name s.assigned fresh,
        h.each i,
        h.each j,
      );
      sized =
          omega
            (arith, h.sized, length-remove j s.pending, length-set j name s.assigned fresh, one);
    }
