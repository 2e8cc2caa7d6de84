-- ===== src/Transfer/Archive/Bounds.antt =====
-- What mcp_server/skills/file_transfer/archive.py writes, on every outcome.
use openstudio_mcp.Base.{
  ℕ, suc, ◌+◌, ◌≤◌, String, true, Option, none, some, List, [], ◌∷◌, ◌++◌, ◌≡◌, inl, inr, refl,
  length, length-append, ltb, string_eq, ℕ_eq, All, arith, Bool-cases,
}
use openstudio_mcp.Paths.{is_under}
use openstudio_mcp.Transfer.Archive.{
  Member, Failure, Reading, failure_of, open_member, File, Work, header_sum, read_chunks,
  check_member, write_member, place, extract_member, extract_rest, guarded_extract,
}

-- The bytes of the files.
unfoldable pub sum_bytes : List File → ℕ
sum_bytes [] = 0
sum_bytes (f ∷ fs) = f.bytes + sum_bytes fs

abbrev pub file_at : List String → ℕ → File
file_at target bytes = record { target = target; bytes = bytes }

pub sum_bytes-append : (xs ys : List File) → sum_bytes (xs ++ ys) ≡ sum_bytes xs + sum_bytes ys
unfolding sum_bytes
sum_bytes-append [] ys = omega arith
sum_bytes-append (f ∷ fs) ys = omega (arith, sum_bytes-append fs ys)

All-append {ℓ} :
    {A : Type ℓ} (P : A → Type 0) (xs ys : List A) → All P xs → All P ys → All P (xs ++ ys)
All-append P [] ys h g = g
All-append P (x ∷ xs) ys (p, h) g = (p, All-append P xs ys h g)

-- What a loop over the members may have done: the bytes within the cap, as many as were counted
-- where it goes on, at most a file for each member, and none outside the root.
pub record Within (cap : ℕ) (root : List String) (seen : ℕ) (r : Work × Option Failure)
    : Type 0 where
  pub capped : sum_bytes r.0.files ≤ cap
  pub counted : r.1 ≡ none → r.0.total ≡ sum_bytes r.0.files
  pub few : length r.0.files ≤ seen
  pub inside : All (λ f. is_under f.target root ≡ true) r.0.files

read_chunks-bounds :
    (cap : ℕ) (b : Reading) (ns : List ℕ) (total written : ℕ)
    → total ≤ cap
    → let (after, bytes, failure) = read_chunks cap b ns total written in
      (total + bytes ≤ cap + written) × (failure ≡ none → after + written ≡ total + bytes)
unfolding read_chunks failure_of
read_chunks-bounds cap b [] total written h = (omega arith, λ e. omega arith)
read_chunks-bounds cap b (n ∷ ns) total written h = elim (Bool-cases (ltb cap (total + n))) [
  | inl over ↦ rw (over, read_chunks) (omega arith, λ e. absurd (ground arith))
  | inr fits ↦
      let (le, same) =
        read_chunks-bounds cap b ns (total + n) (written + n) (ground (arith, fits)) in
      rw (fits, read_chunks) (omega (arith, le), λ e. omega (arith, same e))
]

module _ (cap : ℕ) (root : List String) (resolve : List String → List String) where
  check_member-under :
      (m : Member) (target : List String)
      → check_member cap root resolve m target ≡ none
      → is_under target root ≡ true
  unfolding check_member
  check_member-under m target h = elim (Bool-cases (is_under target root)) [
    | inl y ↦ y
    | inr n ↦ absurd (ground (arith, n))
  ]

  write_member-Within :
      (m : Member) (target : List String) (w : Work) (seen : ℕ)
      → is_under target root ≡ true
      → Within cap root seen (w, none)
      → Within cap root (suc seen) (write_member cap root resolve m target w)
  unfolding write_member sum_bytes
  write_member-Within m target w seen u h =
      let (total, bytes, failure) = read_chunks cap m.reading m.chunks w.total 0 in
      let file = file_at target bytes in
      let same = h.counted refl in
      let (le, exact) =
        read_chunks-bounds cap m.reading m.chunks w.total 0 (omega (arith, h.capped)) in
      let sums = sum_bytes-append w.files (file ∷ []) in
      record {
        capped = omega (arith, sums, le, same);
        counted = λ e. omega (arith, sums, exact e, same);
        few = omega (arith, length-append w.files (file ∷ []), h.few);
        inside = All-append _ w.files (file ∷ []) h.inside (u, tt);
      }

  weaken :
      (w : Work) (seen : ℕ) (failure : Failure)
      → Within cap root seen (w, none)
      → Within cap root (suc seen) (w, some failure)
  weaken w seen failure h = record {
    capped = h.capped;
    counted = λ e. absurd (ground arith);
    few = omega (arith, h.few);
    inside = h.inside;
  }

  open_member-Within :
      (m : Member) (target : List String) (w : Work) (seen : ℕ) (failure : Option Failure)
      → is_under target root ≡ true
      → Within cap root seen (w, none)
      → Within cap root (suc seen) (open_member cap root resolve m target w failure)
  unfolding open_member
  open_member-Within m target w seen (some failure) u h = weaken w seen failure h
  open_member-Within m target w seen none u h = elim (Bool-cases m.is_dir) [
    | inl dir ↦
        rw (dir, open_member)
          (record {
            capped = h.capped;
            counted = h.counted;
            few = omega (arith, h.few);
            inside = h.inside;
          })
    | inr file ↦ rw (file, open_member) (write_member-Within m target w seen u h)
  ]

  place-Within :
      (m : Member) (target : List String) (w : Work) (seen : ℕ) (failure : Option Failure)
      → (failure ≡ none → is_under target root ≡ true)
      → Within cap root seen (w, none)
      → Within cap root (suc seen) (place cap root resolve m target w failure)
  unfolding place
  place-Within m target w seen (some failure) u h = weaken w seen failure h
  place-Within m target w seen none u h =
      open_member-Within m target w seen (failure_of m.opening) (u refl) h

  extract_rest-Within :
      (ms : List Member) (w : Work) (failure : Option Failure) (seen : ℕ)
      → Within cap root seen (w, failure)
      → Within cap root (length ms + seen) (extract_rest cap root resolve ms (w, failure))
  unfolding extract_rest extract_member
  extract_rest-Within ms w (some failure) seen h = record {
    capped = h.capped;
    counted = h.counted;
    few = omega (arith, h.few);
    inside = h.inside;
  }
  extract_rest-Within [] w none seen h = record {
    capped = h.capped;
    counted = h.counted;
    few = omega (arith, h.few);
    inside = h.inside;
  }
  extract_rest-Within (m ∷ ms) w none seen h =
      let target = resolve (root ++ m.parts) in
      let one =
        place-Within m target w seen (check_member cap root resolve m target)
          (check_member-under m target) h in
      let rest =
        extract_rest-Within ms (extract_member cap root resolve m w).0
          (extract_member cap root resolve m w).1 (suc seen) one in
      record {
        capped = rest.capped;
        counted = rest.counted;
        few = omega (arith, rest.few);
        inside = rest.inside;
      }

  -- Whatever an archive's headers say and however its extraction ends: the bytes written are at most
  -- the cap, the files at most as many as the entries allowed, and every file lies in the directory of
  -- the extraction, even where the extraction fails in the middle.
  pub guarded_extract-bounds :
      (max_entries : ℕ) (archive : Option (List Member)) (backstop : Option Failure)
      → let (files, res) = guarded_extract cap max_entries root resolve archive backstop in
        (sum_bytes files ≤ cap)
        × (length files ≤ max_entries)
        × All (λ f. is_under f.target root ≡ true) files
  unfolding guarded_extract sum_bytes
  guarded_extract-bounds max_entries none backstop = (omega arith, omega arith, tt)
  guarded_extract-bounds max_entries (some infos) backstop =
      elim (Bool-cases (ltb max_entries (length infos))) [
        | inl many ↦ rw (many, guarded_extract) (omega arith, omega arith, tt)
        | inr few ↦ elim (Bool-cases (ltb cap (header_sum infos))) [
          | inl large ↦ rw (few, large, guarded_extract) (omega arith, omega arith, tt)
          | inr small ↦
              let h =
                extract_rest-Within infos (record { total = 0; files = [] }) none 0
                  (record {
                    capped = omega arith;
                    counted = λ e. refl;
                    few = omega arith;
                    inside = tt;
                  }) in
              rw (few, small, guarded_extract) (h.capped, ground (arith, few, h.few), h.inside)
        ]
      ]
