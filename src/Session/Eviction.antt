-- ===== src/Session/Eviction.antt =====
-- What the idle sweep and the LRU eviction of mcp_server/model_manager.py take out.
use openstudio_mcp.Base.{
  ℕ, zero, suc, ◌-◌, ◌≤◌, ◌<◌, String, Bool, false, Option, none, some, List, [], ◌∷◌, ◌≡◌, refl,
  ◌≢◌, inl, inr, ap, ltb, leb, ◌==◌, string_eq, ℕ_eq, if◌then◌else◌, length, contains, Bool-cases,
  Option-cases, arith,
}
use openstudio_mcp.Base.Dict
use openstudio_mcp.Base.Dict.{
  Dict, NodupKeys, lookup-erase, lookup-cons, lookup-nil, length-erase-lt, erase-NodupKeys,
}
use openstudio_mcp.Session.{
  Config, max_sessions, SessionState, Manager, drop_session, drop_each, idle_keys, sweep_idle,
  least_recent, evict_loop, evict_if_needed,
}
use text.Mathlib.TextEquality.{eq_iff}

module _ {M : Type 0} where
  pub lookup-drop_session :
      (j key : String) (m : Manager M)
      → Dict.lookup j (drop_session key m).sessions
        ≡ (if j == key then none else Dict.lookup j m.sessions)
  unfolding drop_session
  lookup-drop_session j key m = lookup-erase j key m.sessions

  pub lookup-drop_each :
      (j : String) (ks : List String) (m : Manager M)
      → Dict.lookup j (drop_each ks m).sessions
        ≡ (if contains ks j then none else Dict.lookup j m.sessions)
  unfolding drop_each
  lookup-drop_each j [] m = refl
  lookup-drop_each j (k ∷ ks) m =
      ground (arith, lookup-drop_each j ks (drop_session k m), lookup-drop_session j k m)

  -- A session that the sweep at `cutoff` looks for.
  abbrev pub is_idle : ℕ → Option (SessionState M) → Bool
  is_idle cutoff none = false
  is_idle cutoff (some st) = ltb st.last_access cutoff

  contains-idle_keys :
      (j : String) (cutoff : ℕ) (d : Dict (SessionState M))
      → NodupKeys d
      → contains (idle_keys cutoff d) j ≡ is_idle cutoff (Dict.lookup j d)
  unfolding idle_keys
  contains-idle_keys j cutoff [] u = rw lookup-nil
  contains-idle_keys j cutoff ((k, st) ∷ d) (fresh, u) =
      rw lookup-cons (ground (arith, contains-idle_keys j cutoff d u, fresh, eq_iff j k))

  -- The sweep takes out exactly the sessions whose last access lies before the cutoff.
  pub lookup-sweep_idle :
      (cfg : Config) (now : ℕ) (j : String) (m : Manager M)
      → NodupKeys m.sessions
      → Dict.lookup j (sweep_idle cfg now m).sessions ≡ (
          if cfg.ttl == 0
          then Dict.lookup j m.sessions
          else if is_idle (now - cfg.ttl) (Dict.lookup j m.sessions)
          then none
          else Dict.lookup j m.sessions)
  unfolding sweep_idle
  lookup-sweep_idle cfg now j m u = ground (
    arith,
    lookup-drop_each j (idle_keys (now - cfg.ttl) m.sessions) m,
    contains-idle_keys j (now - cfg.ttl) m.sessions u,
  )

  -- The least recently used session is one of the table, and no other was used before it.
  abbrev pub NoOlder : ℕ → Dict (SessionState M) → Type 0
  NoOlder t [] = Unit
  NoOlder t ((k, st) ∷ d) = (t ≤ st.last_access) × NoOlder t d

  NoOlder-le : (s t : ℕ) (d : Dict (SessionState M)) → s ≤ t → NoOlder t d → NoOlder s d
  NoOlder-le s t [] h _ = tt
  NoOlder-le s t ((k, st) ∷ d) h (a, r) = (omega arith, NoOlder-le s t d h r)

  pub NoOlder-lookup :
      (t : ℕ) (d : Dict (SessionState M)) (j : String) (st : SessionState M)
      → NoOlder t d
      → Dict.lookup j d ≡ some st
      → t ≤ st.last_access
  unfolding Dict.lookup
  NoOlder-lookup t [] j st h e = absurd (cc)
  NoOlder-lookup t ((k, s) ∷ d) j st (a, r) e = ground (arith, NoOlder-lookup t d j st r)

  pub least_recent-nil : (d : Dict (SessionState M)) → least_recent d ≡ none → d ≡ []
  unfolding least_recent
  least_recent-nil [] e = refl
  least_recent-nil ((k, st) ∷ d) e = ground arith

  pub least_recent-lookup :
      (d : Dict (SessionState M)) (v : String) (st : SessionState M)
      → NodupKeys d
      → least_recent d ≡ some (v, st)
      → Dict.lookup v d ≡ some st
  unfolding least_recent Dict.lookup
  least_recent-lookup [] v st u e = absurd (cc)
  least_recent-lookup ((k, s) ∷ d) v st (fresh, u) e = elim (Option-cases (least_recent d)) [
    | inl none_left ↦ ground (arith, eq_iff v k)
    | inr ((j, best), some_left) ↦
        ground (arith, least_recent-lookup d j best u some_left, fresh, eq_iff v k)
  ]

  pub least_recent-NoOlder :
      (d : Dict (SessionState M)) (v : String) (st : SessionState M)
      → least_recent d ≡ some (v, st)
      → NoOlder st.last_access d
  unfolding least_recent
  least_recent-NoOlder [] v st e = tt
  least_recent-NoOlder ((k, s) ∷ d) v st e = elim (Option-cases (least_recent d)) [
    | inl none_left ↦ rw (least_recent-nil d none_left) (ground arith)
    | inr ((j, best), some_left) ↦ (
      ground arith,
      NoOlder-le st.last_access best.last_access d (ground arith)
          (least_recent-NoOlder d j best some_left),
    )
  ]

  length-drop_session :
      (k : String) (m : Manager M)
      → Dict.lookup k m.sessions ≢ none
      → length (drop_session k m).sessions < length m.sessions
  unfolding drop_session
  length-drop_session k m h = length-erase-lt k m.sessions h

  pub drop_session-NodupKeys :
      (k : String) (m : Manager M) → NodupKeys m.sessions → NodupKeys (drop_session k m).sessions
  unfolding drop_session
  drop_session-NodupKeys k m u = erase-NodupKeys k m.sessions u

  evict_loop-room :
      (fuel : ℕ) (cfg : Config) (m : Manager M)
      → NodupKeys m.sessions
      → length m.sessions ≤ fuel
      → length (evict_loop fuel cfg m).sessions < max_sessions cfg
  unfolding evict_loop
  evict_loop-room zero cfg m u h = omega arith
  evict_loop-room (suc fuel) cfg m u h =
      elim (Bool-cases (leb (max_sessions cfg) (length m.sessions))) [
        | inr room ↦ rw room (ground arith)
        | inl full ↦ elim (Option-cases (least_recent m.sessions)) [
          | inl empty ↦ let e = ap length (least_recent-nil m.sessions empty) in ground (arith, e)
          | inr ((v, st), found) ↦
              let there = least_recent-lookup m.sessions v st u found in
              rw (full, found, evict_loop)
                (evict_loop-room fuel cfg (drop_session v m) (drop_session-NodupKeys v m u)
                  (ground (arith, length-drop_session v m, there)))
        ]
      ]

  -- With no session of `keep`, eviction leaves room for one more.
  pub evict_if_needed-room :
      (keep : String) (cfg : Config) (m : Manager M)
      → NodupKeys m.sessions
      → Dict.lookup keep m.sessions ≡ none
      → length (evict_if_needed keep cfg m).sessions < max_sessions cfg
  unfolding evict_if_needed
  evict_if_needed-room keep cfg m u absent =
      rw (absent, evict_if_needed) (evict_loop-room (length m.sessions) cfg m u (omega arith))
