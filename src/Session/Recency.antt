-- ===== src/Session/Recency.antt =====
-- The order in which `_evict_if_needed` of mcp_server/model_manager.py takes sessions out.
use openstudio_mcp.Base.{
  ℕ, zero, suc, ◌≤◌, String, none, some, ◌≡◌, inl, inr, leb, ◌==◌, string_eq, length, Bool-cases,
  Option-cases, arith,
}
use openstudio_mcp.Base.Dict
use openstudio_mcp.Base.Dict.{Dict, NodupKeys}
use openstudio_mcp.Session.{
  Config, max_sessions, SessionState, Manager, drop_session, least_recent, evict_loop,
  evict_if_needed,
}
use openstudio_mcp.Session.Eviction.{
  lookup-drop_session, NoOlder-lookup, least_recent-lookup, least_recent-NoOlder,
  drop_session-NodupKeys,
}
use text.Mathlib.TextEquality.{eq_iff}

module _ {M : Type 0} where
  evict_loop-subset :
      (fuel : ℕ) (cfg : Config) (m : Manager M) (j : String) (t : SessionState M)
      → Dict.lookup j (evict_loop fuel cfg m).sessions ≡ some t
      → Dict.lookup j m.sessions ≡ some t
  unfolding evict_loop
  evict_loop-subset zero cfg m j t e = e
  evict_loop-subset (suc fuel) cfg m j t e =
      elim (Bool-cases (leb (max_sessions cfg) (length m.sessions))) [
        | inr room ↦ rw room at e
        | inl full ↦ elim (Option-cases (least_recent m.sessions)) [
          | inl empty ↦ rw (full, empty, evict_loop) at e
          | inr ((v, st), found) ↦
              let e' = rw (full, found, evict_loop) at e in
              let kept = evict_loop-subset fuel cfg (drop_session v m) j t e' in
              ground (arith, kept, lookup-drop_session j v m)
        ]
      ]

  evict_loop-order :
      (fuel : ℕ) (cfg : Config) (m : Manager M) (j k : String) (s t : SessionState M)
      → NodupKeys m.sessions
      → Dict.lookup k m.sessions ≡ some s
      → Dict.lookup k (evict_loop fuel cfg m).sessions ≡ none
      → Dict.lookup j (evict_loop fuel cfg m).sessions ≡ some t
      → s.last_access ≤ t.last_access
  unfolding evict_loop
  evict_loop-order zero cfg m j k s t u there gone kept = absurd (cc)
  evict_loop-order (suc fuel) cfg m j k s t u there gone kept =
      elim (Bool-cases (leb (max_sessions cfg) (length m.sessions))) [
        | inr room ↦ let gone' = rw room at gone in absurd (cc)
        | inl full ↦ elim (Option-cases (least_recent m.sessions)) [
          | inl empty ↦ let gone' = rw (full, empty, evict_loop) at gone in absurd (cc)
          | inr ((v, st), found) ↦
              let gone' = rw (full, found, evict_loop) at gone in
              let kept' = rw (full, found, evict_loop) at kept in
              let in_m = evict_loop-subset fuel cfg (drop_session v m) j t kept' in
              elim (Bool-cases (k == v)) [
                | inl same ↦ ground (
                  arith,
                  eq_iff k v,
                  least_recent-lookup m.sessions v st u found,
                  lookup-drop_session j v m,
                  NoOlder-lookup st.last_access m.sessions j t
                      (least_recent-NoOlder m.sessions v st found),
                )
                | inr other ↦
                    evict_loop-order fuel cfg (drop_session v m) j k s t
                      (drop_session-NodupKeys v m u) (ground (arith, lookup-drop_session k v m))
                      gone' kept'
              ]
        ]
      ]

  -- Eviction for a key takes out only sessions that were used no later than any session it leaves:
  -- `s` of `k` was there and is gone, `t` of `j` is still there.
  pub evict_if_needed-order :
      (keep : String) (cfg : Config) (m : Manager M) (j k : String) (s t : SessionState M)
      → NodupKeys m.sessions
      → Dict.lookup k m.sessions ≡ some s
      → Dict.lookup k (evict_if_needed keep cfg m).sessions ≡ none
      → Dict.lookup j (evict_if_needed keep cfg m).sessions ≡ some t
      → s.last_access ≤ t.last_access
  unfolding evict_if_needed
  evict_if_needed-order keep cfg m j k s t u there gone kept =
      elim (Option-cases (Dict.lookup keep m.sessions)) [
        | inr (st, e) ↦ let gone' = rw (e, evict_if_needed) at gone in absurd (cc)
        | inl e ↦
            evict_loop-order (length m.sessions) cfg m j k s t u there
              (rw (e, evict_if_needed) at gone) (rw (e, evict_if_needed) at kept)
      ]

  pub evict_if_needed-subset :
      (keep : String) (cfg : Config) (m : Manager M) (j : String) (t : SessionState M)
      → Dict.lookup j (evict_if_needed keep cfg m).sessions ≡ some t
      → Dict.lookup j m.sessions ≡ some t
  unfolding evict_if_needed
  evict_if_needed-subset keep cfg m j t kept = elim (Option-cases (Dict.lookup keep m.sessions)) [
    | inr (st, e) ↦ rw (e, evict_if_needed) at kept
    | inl e ↦ evict_loop-subset (length m.sessions) cfg m j t (rw (e, evict_if_needed) at kept)
  ]
