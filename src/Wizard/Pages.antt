-- ===== src/Wizard/Pages.antt =====
-- The pages of the table in mcp_server/skills/space_type_assignment/operations.py.
use openstudio_mcp.Base.{ℕ, zero, suc, List, [], ◌++◌, drop, if◌then◌else◌, max, ℕ_eq}
use openstudio_mcp.Wizard.{Row, State, sort_items, render_table_page}

-- A caller who asks for page after page from one on, while there are more; `fuel` bounds the pages.
unfoldable pub read_pages : State → ℕ → ℕ → ℕ → List (ℕ × Row)
unfolding render_table_page
read_pages s size page zero = []
read_pages s size page (suc fuel) =
    let shown = render_table_page s page size in
    let rest = read_pages s size (suc page) fuel in
    if shown.has_more then shown.rows ++ rest else shown.rows

-- The rows from a place on.
from : State → ℕ → List (ℕ × Row)
from s k = drop k (sort_items s.pending)

module _ (s : State) (size : ℕ) where
  -- The size of a page that is shown.
  abbrev m : ℕ
  m = max 1 size
