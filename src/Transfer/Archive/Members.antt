-- ===== src/Transfer/Archive/Members.antt =====
-- What an archive was like that mcp_server/skills/file_transfer/archive.py extracted without an error.
use openstudio_mcp.Base.{
  ℕ, ◌+◌, String, Bool, true, false, Option, none, some, List, [], ◌∷◌, ◌++◌, ◌||◌, ◌≡◌, inl, inr,
  refl, length, contains, if◌then◌else◌, ltb, string_eq, ℕ_eq, All, arith, Bool-cases,
}
use openstudio_mcp.Paths.{is_under}
use openstudio_mcp.Transfer.Archive.{
  Member, Failure, Reading, failure_of, open_member, Work, allowed_methods, header_sum, read_chunks,
  check_member, write_member, place, extract_member, extract_rest, guarded_extract,
}
use openstudio_mcp.Transfer.Archive.Bounds.{sum_bytes, sum_bytes-append, file_at}

-- What reading a member yields.
unfoldable pub sum_chunks : List ℕ → ℕ
sum_chunks [] = 0
sum_chunks (n ∷ ns) = n + sum_chunks ns

unfoldable pub content : List Member → ℕ
unfolding sum_chunks
content [] = 0
content (m ∷ ms) = (if m.is_dir then 0 else sum_chunks m.chunks) + content ms

-- A member that leads nowhere but into the directory of the extraction.
pub record IsAcceptable (root : List String) (resolve : List String → List String) (m : Member)
    : Type 0 where
  pub relative : m.is_absolute ≡ false
  pub no_parent : contains m.parts ".." ≡ false
  pub no_link : m.is_link ≡ false
  pub known_method : contains allowed_methods m.method ≡ true
  pub inside : is_under (resolve (root ++ m.parts)) root ≡ true

read_chunks-all :
    (cap : ℕ) (b : Reading) (ns : List ℕ) (total written : ℕ)
    → (read_chunks cap b ns total written).2 ≡ none
    → (read_chunks cap b ns total written).1 ≡ written + sum_chunks ns
unfolding read_chunks sum_chunks
read_chunks-all cap b [] total written h = omega arith
read_chunks-all cap b (n ∷ ns) total written h =
    ground (arith, read_chunks-all cap b ns (total + n) (written + n))

or_right : (a b : Bool) → (a || b) ≡ false → b ≡ false
or_right a b h = ground arith

end_none :
    (failure backstop : Option Failure)
    → (elim failure [ none ↦ backstop | some f ↦ some f ]) ≡ none
    → failure ≡ none
end_none none backstop h = refl
end_none (some f) backstop h = absurd (ground arith)

module _ (cap : ℕ) (root : List String) (resolve : List String → List String) where
  check_member-IsAcceptable :
      (m : Member)
      → check_member cap root resolve m (resolve (root ++ m.parts)) ≡ none
      → IsAcceptable root resolve m
  unfolding check_member
  check_member-IsAcceptable m h = elim (Bool-cases (m.is_absolute || contains m.parts "..")) [
    | inl y ↦ absurd (ground (arith, y))
    | inr n ↦ record {
      relative = ground (arith, n);
      no_parent = or_right m.is_absolute (contains m.parts "..") n;
      no_link = ground (arith, n);
      known_method = elim (Bool-cases (contains allowed_methods m.method)) [
        | inl known ↦ known
        | inr other ↦ absurd (ground (arith, other))
      ];
      inside = elim (Bool-cases (is_under (resolve (root ++ m.parts)) root)) [
        | inl y ↦ y
        | inr out ↦ absurd (ground (arith, out))
      ];
    }
  ]

  open_member-all :
      (m : Member) (target : List String) (w : Work) (failure : Option Failure)
      → (open_member cap root resolve m target w failure).1 ≡ none
      → sum_bytes (open_member cap root resolve m target w failure).0.files
        ≡ sum_bytes w.files + (if m.is_dir then 0 else sum_chunks m.chunks)
  unfolding open_member write_member sum_bytes
  open_member-all m target w (some failure) h = absurd (ground arith)
  open_member-all m target w none h = elim (Bool-cases m.is_dir) [
    | inl dir ↦ rw (dir, open_member) (omega arith)
    | inr file ↦
        rw (file, open_member)
          (omega (
            arith,
            sum_bytes-append w.files
                (file_at target (read_chunks cap m.reading m.chunks w.total 0).1 ∷ []),
            read_chunks-all cap m.reading m.chunks w.total 0 (rw (file, open_member) at h),
          ))
  ]

  place-all :
      (m : Member) (target : List String) (w : Work) (failure : Option Failure)
      → (place cap root resolve m target w failure).1 ≡ none
      → (failure ≡ none)
        × (sum_bytes (place cap root resolve m target w failure).0.files
            ≡ sum_bytes w.files + (if m.is_dir then 0 else sum_chunks m.chunks))
  unfolding place
  place-all m target w (some failure) h = absurd (ground arith)
  place-all m target w none h = (refl, open_member-all m target w (failure_of m.opening) h)

  extract_rest-All :
      (ms : List Member) (w : Work) (failure : Option Failure)
      → (extract_rest cap root resolve ms (w, failure)).1 ≡ none
      → (failure ≡ none)
        × All (IsAcceptable root resolve) ms
        × (sum_bytes (extract_rest cap root resolve ms (w, failure)).0.files
            ≡ sum_bytes w.files + content ms)
  unfolding extract_rest extract_member content
  extract_rest-All ms w (some failure) h = absurd (ground arith)
  extract_rest-All [] w none h = (refl, tt, omega arith)
  extract_rest-All (m ∷ ms) w none h =
      let target = resolve (root ++ m.parts) in
      let now = extract_member cap root resolve m w in
      let (went, ok, sum) = extract_rest-All ms now.0 now.1 h in
      let (passed, one) = place-all m target w (check_member cap root resolve m target) went in
      (refl, (check_member-IsAcceptable m passed, ok), omega (arith, sum, one))

  -- Where the extraction reports no error, every member named a place inside the directory, without an
  -- absolute path or a parent step, was no link and used one of the two methods; and the bytes
  -- written are all that the members hold.
  pub guarded_extract-All :
      (max_entries : ℕ) (infos : List Member) (backstop : Option Failure)
      → (guarded_extract cap max_entries root resolve (some infos) backstop).1 ≡ none
      → All (IsAcceptable root resolve) infos
        × (sum_bytes (guarded_extract cap max_entries root resolve (some infos) backstop).0
            ≡ content infos)
  unfolding guarded_extract sum_bytes
  guarded_extract-All max_entries infos backstop h =
      elim (Bool-cases (ltb max_entries (length infos))) [
        | inl many ↦ absurd (ground (arith, many))
        | inr few ↦ elim (Bool-cases (ltb cap (header_sum infos))) [
          | inl large ↦ absurd (ground (arith, few, large))
          | inr small ↦
              let (_, ok, sum) =
                extract_rest-All infos (record { total = 0; files = [] }) none
                  (end_none
                    (extract_rest cap root resolve infos (record { total = 0; files = [] }, none)).1
                    backstop (rw (few, small, guarded_extract) at h)) in
              (ok, rw (few, small, guarded_extract) (omega (arith, sum)))
        ]
      ]
