-- ===== src/Btree/Path.antt =====
-- btree/SearchPath.h and SearchPath.cpp: the internal nodes passed on the way down, the last one first.
use quartz_database_c.Prelude.{ℕ, List, [], ◌∷◌, length, ltb, if◌then◌else◌, ◌-◌}
use quartz_database_c.Status.{Result, ok, err, invalid_argument}
use quartz_database_c.Outcome.{Outcome, at}
use quartz_database_c.Format.{PageReference}

pub record SearchPathEntry : Type 0 where
  pub page_id : ℕ
  pub child_index : ℕ
  pub page_ref : PageReference

abbrev pub SearchPath : Type 0
SearchPath = List SearchPathEntry

unfoldable pub push : SearchPathEntry → SearchPath → SearchPath
push entry path = entry ∷ path

pub pop : SearchPath → SearchPath
pop [] = []
pop (entry ∷ path) = path

pub depth : SearchPath → ℕ
depth path = length path

-- `parentEntry`: the frame under the top one.
pub parent_entry : SearchPath → Result SearchPathEntry
parent_entry [] = err invalid_argument
parent_entry (top ∷ []) = err invalid_argument
parent_entry (top ∷ below ∷ path) = ok below

-- `at(index)`, counted from the root.
pub entry_at : SearchPath → ℕ → Outcome SearchPathEntry
entry_at path index =
    at path (if ltb index (length path) then length path - 1 - index else length path)
