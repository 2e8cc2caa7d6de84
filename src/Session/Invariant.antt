-- ===== src/Session/Invariant.antt =====
-- The invariant of the manager's table, kept by every move.
use openstudio_mcp.Base.{
  ◌≤◌, ◌<◌, String, none, some, ◌≡◌, ◌≢◌, ◌⊎◌, inl, inr, string_eq, length, arith,
}
use openstudio_mcp.Base.Dict
use openstudio_mcp.Base.Dict.{
  Dict, NodupKeys, lookup-nil, lookup-insert, lookup-erase, insert-NodupKeys, erase-NodupKeys,
  length-insert, length-erase-le,
}
use openstudio_mcp.Session.{Config, max_sessions, SessionState, Manager, init}
use openstudio_mcp.Session.Moves.{Move, same, drop, update, create, install, Moves, here, next}
use text.Mathlib.TextEquality.{eq_iff}

-- The table fits; generations are tokens drawn before, 0 or shared by no two sessions; and a
-- session that holds a model has a generation.
pub record IsValid {M : Type 0} (cfg : Config) (m : Manager M) : Type 0 where
  pub fits : length m.sessions ≤ max_sessions cfg
  pub nodup : NodupKeys m.sessions
  pub counting : 0 < m.next_token
  pub drawn :
      (k : String) (st : SessionState M)
      → Dict.lookup k m.sessions ≡ some st
      → st.generation < m.next_token
  pub distinct :
      (j k : String) (s t : SessionState M)
      → Dict.lookup j m.sessions ≡ some s
      → Dict.lookup k m.sessions ≡ some t
      → 0 < s.generation
      → s.generation ≡ t.generation
      → j ≡ k
  pub loaded :
      (k : String) (st : SessionState M)
      → Dict.lookup k m.sessions ≡ some st
      → st.model ≢ none
      → 0 < st.generation

module _ {M : Type 0} {cfg : Config} where
  pub init-IsValid : IsValid cfg (init {M = M})
  init-IsValid = record {
    fits = omega arith;
    nodup = tt;
    counting = omega arith;
    drawn = λ k st e. absurd (cc (lookup-nil {V = SessionState M} k));
    distinct = λ j k s t e. absurd (cc (lookup-nil {V = SessionState M} j));
    loaded = λ k st e. absurd (cc (lookup-nil {V = SessionState M} k));
  }

  -- A state may be put at a key where there is a place for it and its generation is no other's.
  insert-IsValid :
      (m m' : Manager M) (key : String) (st' : SessionState M)
      → IsValid cfg m
      → m'.sessions ≡ Dict.insert key st' m.sessions
      → m.next_token ≤ m'.next_token
      → (Dict.lookup key m.sessions ≢ none) ⊎ (length m.sessions < max_sessions cfg)
      → st'.generation < m'.next_token
      → ((j : String) (s : SessionState M)
          → Dict.lookup j m.sessions ≡ some s
          → j ≢ key
          → 0 < s.generation
          → s.generation ≢ st'.generation)
      → (st'.model ≢ none → 0 < st'.generation)
      → IsValid cfg m'
  insert-IsValid m m' key st' v e t room g own full = record {
    fits = rw (e, length-insert) (ground (arith, v.fits, room));
    nodup = rw e (insert-NodupKeys key st' m.sessions v.nodup);
    counting = omega (arith, v.counting);
    drawn = rw e λ k st. ground (arith, lookup-insert k key st' m.sessions, v.drawn k st);
    distinct = rw e λ j k s r. ground (
      arith,
      lookup-insert j key st' m.sessions,
      lookup-insert k key st' m.sessions,
      eq_iff j key,
      eq_iff k key,
      v.distinct j k s r,
      own j s,
      own k r,
    );
    loaded = rw e λ k st. ground (arith, lookup-insert k key st' m.sessions, v.loaded k st, full);
  }

  Move-IsValid :
      {key : String} {m m' : Manager M} → Move cfg key m m' → IsValid cfg m → IsValid cfg m'
  Move-IsValid {key} {m} {m'} (same e t) v = record {
    fits = rw e v.fits;
    nodup = rw e v.nodup;
    counting = rw t v.counting;
    drawn = rw (e, t) v.drawn;
    distinct = rw e v.distinct;
    loaded = rw e v.loaded;
  }
  Move-IsValid {key} {m} {m'} (drop k e t) v = record {
    fits = rw e (omega (arith, length-erase-le k m.sessions, v.fits));
    nodup = rw e (erase-NodupKeys k m.sessions v.nodup);
    counting = rw t v.counting;
    drawn = rw (e, t) (λ i st. ground (arith, lookup-erase i k m.sessions, v.drawn i st));
    distinct = rw e λ j i s t.
        ground
          (arith, lookup-erase i k m.sessions, lookup-erase j k m.sessions, v.distinct j i s t);
    loaded = rw e (λ i st. ground (arith, lookup-erase i k m.sessions, v.loaded i st));
  }
  Move-IsValid {key} {m} {m'} (update st st' there u e t) v =
      insert-IsValid m m' key st' v e (omega arith) (inl (λ n. cc))
        (omega (arith, v.drawn key st there, u.generation))
        (λ j s at_j ne pos same_gen. ne (v.distinct j key s st at_j there pos (omega arith)))
        (λ h. rw u.generation (v.loaded key st there (λ n. h (u.unloaded n))))
  Move-IsValid {key} {m} {m'} (create st' room g n e t) v =
      insert-IsValid m m' key st' v e (omega arith) (inr room) (omega (arith, v.counting))
        (λ j s at_j ne pos same_gen. omega arith) (λ h. absurd (h n))
  Move-IsValid {key} {m} {m'} (install st' model has room g e t) v =
      insert-IsValid m m' key st' v e (omega arith) room (omega arith)
        (λ j s at_j ne pos same_gen. omega (arith, v.drawn j s at_j))
        (λ h. omega (arith, v.counting))

  pub Moves-IsValid :
      {key : String} {m m' : Manager M} → Moves cfg key m m' → IsValid cfg m → IsValid cfg m'
  Moves-IsValid here v = v
  Moves-IsValid (next mv r) v = Moves-IsValid r (Move-IsValid mv v)
