-- ===== src/Transfer/Archive/Tests.antt =====
-- The extraction of a few archives, and its theorems there.
use openstudio_mcp.Base.{
  ℕ, String, true, false, Option, none, some, List, [], ◌∷◌, ◌≡◌, ◌≤◌, refl, length, All, string_eq,
}
use openstudio_mcp.Paths.{is_under}
use openstudio_mcp.Transfer.Archive.{
  Member, Failure, File, not_zip, too_many, over_limit, escapes, links, bad_method, broken, raised,
  whole, zip_error, other_error, guarded_extract,
}
use openstudio_mcp.Transfer.Archive.Bounds.{sum_bytes, guarded_extract-bounds}
use openstudio_mcp.Transfer.Archive.Members.{IsAcceptable, content, guarded_extract-All}

abbrev file : String → List ℕ → ℕ → Member
file name chunks size = record {
  is_absolute = false;
  parts = name ∷ [];
  is_link = false;
  method = 8;
  file_size = size;
  is_dir = false;
  chunks = chunks;
  opening = whole;
  reading = whole;
}

-- To unfold this is to unfold what the tests compute with.
run : List Member → List File × Option Failure
unfolding guarded_extract
run ms = guarded_extract 10 2 ("x" ∷ []) (λ p. p) (some ms) none

honest :
    run (file "a" (4 ∷ 2 ∷ []) 6 ∷ []) ≡ (record { target = "x" ∷ "a" ∷ []; bytes = 6 } ∷ [], none)
unfolding run
honest = refl

-- The headers lie, and the extraction stops before the chunk that goes over the cap.
bomb :
    run (file "a" (8 ∷ 8 ∷ []) 1 ∷ [])
    ≡ (record { target = "x" ∷ "a" ∷ []; bytes = 8 } ∷ [], some over_limit)
unfolding run
bomb = refl

parent : run (file ".." (1 ∷ []) 1 ∷ []) ≡ ([], some escapes)
unfolding run
parent = refl

link : run (record (file "a" [] 0) { is_link = true } ∷ []) ≡ ([], some links)
unfolding run
link = refl

bzip : run (record (file "a" [] 0) { method = 12 } ∷ []) ≡ ([], some bad_method)
unfolding run
bzip = refl

truncated :
    run (record (file "a" (1 ∷ []) 1) { reading = zip_error } ∷ [])
    ≡ (record { target = "x" ∷ "a" ∷ []; bytes = 1 } ∷ [], some broken)
unfolding run
truncated = refl

-- An encrypted member: its opening raises a RuntimeError, which is not caught.
encrypted :
    run (file "a" (1 ∷ []) 1 ∷ record (file "b" (1 ∷ []) 1) { opening = other_error } ∷ [])
    ≡ (record { target = "x" ∷ "a" ∷ []; bytes = 1 } ∷ [], some raised)
unfolding run
encrypted = refl

crowd : run (file "a" [] 0 ∷ file "b" [] 0 ∷ file "c" [] 0 ∷ []) ≡ ([], some too_many)
unfolding run
crowd = refl

no_zip : guarded_extract 10 2 [] (λ p. p) none none ≡ ([], some not_zip)
unfolding run
no_zip = refl

abbrev lying : List Member
lying = file "a" (8 ∷ 8 ∷ []) 1 ∷ []

guarded_extract-bounds_example :
    let (files, res) = guarded_extract 10 2 ("x" ∷ []) (λ p. p) (some lying) none in
    (sum_bytes files ≤ 10)
    × (length files ≤ 2)
    × All (λ f. is_under f.target ("x" ∷ []) ≡ true) files
guarded_extract-bounds_example = guarded_extract-bounds 10 ("x" ∷ []) (λ p. p) 2 (some lying) none

abbrev good : List Member
good = file "a" (4 ∷ 2 ∷ []) 6 ∷ []

good-none : (guarded_extract 10 2 ("x" ∷ []) (λ p. p) (some good) none).1 ≡ none
unfolding run
good-none = refl

guarded_extract-All_example :
    All (IsAcceptable ("x" ∷ []) (λ p. p)) good
    × (sum_bytes (guarded_extract 10 2 ("x" ∷ []) (λ p. p) (some good) none).0 ≡ content good)
guarded_extract-All_example = guarded_extract-All 10 ("x" ∷ []) (λ p. p) 2 good none good-none
