-- ===== src/Transfer/Archive.antt =====
-- The guarded extraction of mcp_server/skills/file_transfer/archive.py. What the archive holds is a
-- record; the resolution of a path and the last look for links are arguments.
pub mod Bounds
pub mod Members
mod Tests
use openstudio_mcp.Base.{
  ℕ, ◌+◌, String, Bool, true, false, not, Option, none, some, List, [], ◌∷◌, ◌++◌, ◌&&◌, ◌||◌,
  length, contains, if◌then◌else◌, ltb, ◌==◌, string_eq, ℕ_eq,
}
use openstudio_mcp.Paths.{is_under}

-- How the opening or the reading of a member comes out.
pub data Reading : Type 0 where
  -- without an error; with a BadZipFile or an OSError; with any other exception, as for an encrypted
  -- member or a corrupt stream
  whole zip_error other_error : Reading

-- A member: its name, cut into parts; the mode and the method of its header, and the size that the
-- header states; how the opening of it and of its target comes out; the chunks that reading it
-- yields, and how the reading ends after them.
pub record Member : Type 0 where
  pub is_absolute : Bool
  pub parts : List String
  pub is_link : Bool
  pub method : ℕ
  pub file_size : ℕ
  pub is_dir : Bool
  pub opening : Reading
  pub chunks : List ℕ
  pub reading : Reading

pub data Failure : Type 0 where
  not_zip too_many over_limit escapes links bad_method broken : Failure
  -- no error string: the exception leaves the function
  raised : Failure

unfoldable pub failure_of : Reading → Option Failure
failure_of whole = none
failure_of zip_error = some broken
failure_of other_error = some raised

-- A file that was opened for writing, and the bytes written to it.
pub record File : Type 0 where
  pub target : List String
  pub bytes : ℕ

pub record Work : Type 0 where
  pub total : ℕ
  pub files : List File

-- `_ALLOWED_METHODS`: ZIP_STORED and ZIP_DEFLATED.
abbrev pub allowed_methods : List ℕ
allowed_methods = 0 ∷ 8 ∷ []

-- `sum(i.file_size for i in infos)`
unfoldable pub header_sum : List Member → ℕ
header_sum [] = 0
header_sum (m ∷ ms) = m.file_size + header_sum ms

-- The inner loop: the total, the bytes written, and whether it came to its end.
unfoldable pub read_chunks : ℕ → Reading → List ℕ → ℕ → ℕ → ℕ × ℕ × Option Failure
unfolding failure_of
read_chunks cap reading [] total written = (total, written, failure_of reading)
read_chunks cap reading (n ∷ ns) total written =
    let rest = read_chunks cap reading ns (total + n) (written + n) in
    if ltb cap (total + n) then (total + n, written, some over_limit) else rest

module _ (cap : ℕ) (root : List String) (resolve : List String → List String) where
  -- The tests of a member before anything of it is written, in the order of the code.
  unfoldable pub check_member : Member → List String → Option Failure
  unfolding is_under
  check_member m target =
      if m.is_absolute || contains m.parts ".."
      then some escapes
      else if m.is_link
      then some links
      else if not (contains allowed_methods m.method)
      then some bad_method
      else if not (is_under target root)
      then some escapes
      else none

  unfoldable pub write_member : Member → List String → Work → Work × Option Failure
  unfolding read_chunks
  write_member m target w =
      let (total, bytes, failure) = read_chunks cap m.reading m.chunks w.total 0 in
      (
        record {
          total = total;
          files = w.files ++ (record { target = target; bytes = bytes } ∷ []);
        },
        failure,
      )

  unfoldable pub open_member : Member → List String → Work → Option Failure → Work × Option Failure
  unfolding write_member
  open_member m target w (some failure) = (w, some failure)
  open_member m target w none = if m.is_dir then (w, none) else write_member m target w

  unfoldable pub place : Member → List String → Work → Option Failure → Work × Option Failure
  unfolding open_member failure_of
  place m target w (some failure) = (w, some failure)
  place m target w none = open_member m target w (failure_of m.opening)

  unfoldable pub extract_member : Member → Work → Work × Option Failure
  unfolding place check_member
  extract_member m w =
      let target = resolve (root ++ m.parts) in place m target w (check_member m target)

  unfoldable pub extract_rest : List Member → Work × Option Failure → Work × Option Failure
  unfolding extract_member
  extract_rest ms (w, some failure) = (w, some failure)
  extract_rest [] (w, none) = (w, none)
  extract_rest (m ∷ ms) (w, none) = extract_rest ms (extract_member m w)

-- `reject_escaping_symlinks` is the last argument: none where it finds nothing.
unfoldable pub guarded_extract :
    ℕ
    → ℕ
    → List String
    → (List String → List String)
    → Option (List Member)
    → Option Failure
    → List File × Option Failure
unfolding header_sum extract_rest
guarded_extract cap max_entries root resolve none backstop = ([], some not_zip)
guarded_extract cap max_entries root resolve (some infos) backstop =
    if ltb max_entries (length infos)
    then ([], some too_many)
    else if ltb cap (header_sum infos)
    then ([], some over_limit)
    else (let (w, failure) =
          extract_rest cap root resolve infos (record { total = 0; files = [] }, none) in
        (w.files, elim failure [ none ↦ backstop | some f ↦ some f ]))
