-- ===== src/ConfigReader.antt =====
-- common/config_reader.h: a file of `key = value` lines.
-- The file's text is an argument; a file that does not open gives no lines.
pub mod Laws
mod Runs
use talon_rpc.Prelude.{
  ℕ, suc, ◌+◌, ◌-◌, List, [], ◌∷◌, take, drop, ◌==◌, if◌then◌else◌, Option, none, some,
}
use talon_rpc.Prelude.Text.{find_first_of}
use talon_rpc.Prelude.Dict.{Dict, assign}
use mathlib.Core.Option

-- `s.find_first_not_of(' ')` and `s.find_last_not_of(' ')`; none is npos.
unfoldable pub find_first_not_space : List ℕ → Option ℕ
find_first_not_space [] = none
find_first_not_space (c ∷ s) = if c == b' ' then Option.map suc (find_first_not_space s) else some 0

later : ℕ → Option ℕ → Option ℕ
later c (some i) = some (suc i)
later c none = if c == b' ' then none else some 0

unfoldable pub find_last_not_space : List ℕ → Option ℕ
unfolding later
find_last_not_space [] = none
find_last_not_space (c ∷ s) = later c (find_last_not_space s)

-- From the index `first` to the index `last`. The latter is there if the former is.
slice : List ℕ → ℕ → Option ℕ → List ℕ
slice s first none = drop first s
slice s first (some last) = take (suc last - first) (drop first s)

unfoldable pub trim : List ℕ → List ℕ
unfolding slice
trim s = elim (find_first_not_space s) [
  | none ↦ []
  | some first ↦ slice s first (find_last_not_space s)
]

-- parseLine on a line that is trimmed.
unfoldable pub parse_trimmed : List ℕ → Dict (List ℕ) → Dict (List ℕ)
parse_trimmed [] config_map = config_map
parse_trimmed (c ∷ s) config_map =
    if c == b'#' then config_map else elim (find_first_of b'=' (c ∷ s)) [
      | none ↦ config_map
      | some i ↦ assign (trim (take i (c ∷ s))) (trim (drop (suc i) (c ∷ s))) config_map
    ]

unfoldable pub parse_line : List ℕ → Dict (List ℕ) → Dict (List ℕ)
unfolding parse_trimmed
parse_line line config_map = parse_trimmed (trim line) config_map

-- std::getline until it fails: the lines of a text; behind a last newline there is none.
started : ℕ → List (List ℕ) → List (List ℕ)
started c [] = (c ∷ []) ∷ []
started c (line ∷ lines) = (c ∷ line) ∷ lines

unfoldable pub get_lines : List ℕ → List (List ℕ)
unfolding started
get_lines [] = []
get_lines (c ∷ s) = let rest = get_lines s in if c == b'\n' then [] ∷ rest else started c rest

unfoldable pub parse_lines : List (List ℕ) → Dict (List ℕ) → Dict (List ℕ)
parse_lines [] config_map = config_map
parse_lines (line ∷ lines) config_map = parse_lines lines (parse_line line config_map)

-- ConfigReader(filename) and getMap(), with the text of the file.
unfoldable pub read_config : List ℕ → Dict (List ℕ)
unfolding parse_lines get_lines
read_config text = parse_lines (get_lines text) []
