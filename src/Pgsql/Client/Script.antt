-- ===== src/Pgsql/Client/Script.antt =====
-- A server that gives prepared answers, for the tests.
use nendi.Common.{ℕ, Option, none, some, List, [], ◌∷◌, Text, get_elem?}
use nendi.Common.Options.{◌>>=◌}
use nendi.Pgsql.Client.{PgServer}

pub data Cell : Type 0 where
  null : Cell
  string : Text → Cell
  int : ℕ → Cell

abbrev pub Cells : Type 0
Cells = List Cell

as_text : Cell → Option Text
as_text null = none
as_text (string v) = some v
as_text (int _) = none

as_int : Cell → Option ℕ
as_int null = none
as_int (string _) = none
as_int (int n) = some n

as_opt : Cell → Option (Option Text)
as_opt null = some none
as_opt (string v) = some (some v)
as_opt (int _) = none

-- The next prepared answer; an empty script fails.
unfoldable pub answer :
    List (Option (List Cells)) → Option (List Cells) × List (Option (List Cells))
answer [] = (none, [])
answer (a ∷ rest) = (a, rest)

first : Option (List Cells) → Option Cells
first (some (c ∷ [])) = some c
first _ = none

unfoldable pub cell_text : Cells → ℕ → Option Text
unfolding as_text
cell_text r i = get_elem? r i >>= as_text

unfoldable pub cell_int : Cells → ℕ → Option ℕ
unfolding as_int
cell_int r i = get_elem? r i >>= as_int

unfoldable pub cell_opt : Cells → ℕ → Option (Option Text)
unfolding as_opt
cell_opt r i = get_elem? r i >>= as_opt

unfoldable pub answer_one : List (Option (List Cells)) → Option Cells × List (Option (List Cells))
unfolding first
answer_one s = (first (answer s).0, (answer s).1)

unfoldable pub answer_done : List (Option (List Cells)) → Option ℕ × List (Option (List Cells))
answer_done s = elim ((answer s).0) [
  | none ↦ (none, (answer s).1)
  | some _ ↦ (some 1, (answer s).1)
]

abbrev pub script_server : PgServer
script_server = record {
  Server = List (Option (List Cells));
  Row = Cells;
  query = λ _ _. answer;
  query_one = λ _ _. answer_one;
  execute = λ _ _. answer_done;
  try_get = cell_text;
  try_get_int = cell_int;
  try_get_opt = cell_opt;
}
