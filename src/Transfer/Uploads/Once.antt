-- ===== src/Transfer/Uploads/Once.antt =====
-- Concurrent requests with one upload URL: the parts of `finalize_upload` of
-- mcp_server/skills/file_transfer/operations.py, in any order, with a removal of the entry between.
use openstudio_mcp.Base.{
  ℕ, ◌+◌, String, Bool, true, false, Option, none, some, List, [], ◌∷◌, ◌++◌, if◌then◌else◌,
  string_eq,
}
use openstudio_mcp.Base.Dict
use openstudio_mcp.Base.Dict.{Dict}
use openstudio_mcp.Transfer.Uploads.{Meta, Entry, Limits}
use openstudio_mcp.Transfer.Uploads.Finalize.{
  Put, Answer, Checked, stored, unknown, already_completed, refuse, go_on, check, unlink_tmp, claim,
  complete,
}

-- How far a request is: nothing read yet; meta.json read and the tests passed; the claim won; at its
-- answer; or at an exception, since the entry is gone.
pub data Stage : Type 0 where
  starting : Stage
  tested : Meta → Stage
  holding : Meta → Stage
  answered : Answer → Stage
  crashed : Stage

module _ (lim : Limits) (is_zip : String → Bool) (file_id : String) where
  unfoldable pub read_meta : Put → Dict Entry → Entry → Checked → Stage × Dict Entry
  unfolding unlink_tmp
  read_meta put d e (refuse a) = (answered a, Dict.insert file_id (unlink_tmp put e) d)
  read_meta put d e (go_on m) = (tested m, d)

  unfoldable pub take_claim : Put → Meta → Dict Entry → Bool × Entry → Stage × Dict Entry
  unfolding unlink_tmp
  take_claim put m d (true, e) = (holding m, Dict.insert file_id e d)
  take_claim put m d (false, e) =
      (answered already_completed, Dict.insert file_id (unlink_tmp put e) d)

  -- The next part of a request, of which the entry is the last argument.
  unfoldable pub advance : Put → Stage → Dict Entry → Option Entry → Stage × Dict Entry
  unfolding read_meta take_claim check claim complete
  advance put starting d none = (answered unknown, d)
  advance put starting d (some e) = read_meta put d e (check put e.meta)
  advance put (tested m) d none = (crashed, d)
  advance put (tested m) d (some e) = take_claim put m d (claim e)
  advance put (holding m) d none = (crashed, d)
  advance put (holding m) d (some e) =
      let (a, after) = complete lim is_zip file_id put m e d in (answered a, after)
  advance put (answered a) d o = (answered a, d)
  advance put crashed d o = (crashed, d)

  abbrev pub World : Type 0
  World = List (Put × Stage) × Dict Entry

  -- One request does its next part, or the entry is deleted.
  pub data Step : World → World → Type 0 where
    moves :
        (xs ys : List (Put × Stage)) (put : Put) (s : Stage) (d : Dict Entry)
        → Step
            (xs ++ ((put, s) ∷ ys), d)
            (
              xs ++ ((put, (advance put s d (Dict.lookup file_id d)).0) ∷ ys),
              (advance put s d (Dict.lookup file_id d)).1,
            )
    deletes : (ts : List (Put × Stage)) (d : Dict Entry) → Step (ts, d) (ts, Dict.erase file_id d)

  pub data Reaches : World → World → Type 0 where
    stays : (w : World) → Reaches w w
    goes : {u v w : World} → Step u v → Reaches v w → Reaches u w

-- Whether the claim is to be had.
abbrev pub free_of : Option Entry → ℕ
free_of none = 0
free_of (some e) = if e.is_claimed then 0 else 1

unfoldable pub free : String → Dict Entry → ℕ
free file_id d = free_of (Dict.lookup file_id d)

-- Whether a request holds the claim, or has stored its upload.
abbrev pub weight : Stage → ℕ
weight (holding m) = 1
weight (answered (stored d)) = 1
weight _ = 0

unfoldable pub weights : List (Put × Stage) → ℕ
weights [] = 0
weights ((put, s) ∷ ts) = weight s + weights ts

-- The requests that were answered with a stored upload.
abbrev pub is_stored : Stage → ℕ
is_stored (answered (stored d)) = 1
is_stored _ = 0

unfoldable pub count_stored : List (Put × Stage) → ℕ
count_stored [] = 0
count_stored ((put, s) ∷ ts) = is_stored s + count_stored ts

-- No request has been answered yet, or holds the claim.
unfoldable pub all_starting : List Put → List (Put × Stage)
all_starting [] = []
all_starting (p ∷ ps) = (p, starting) ∷ all_starting ps
