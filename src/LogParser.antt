-- ===== src/LogParser.antt =====
-- Stage markers in the log: backend/app/services/log_parser.py, and the part of
-- worker/tasks/orfs_job.py that does the same with a pattern and a table of its own.
pub mod Markers
use chipatelier.Prelude.{
  ℕ, String, Bool, true, false, ◌&&◌, ◌||◌, ◌-◌, Option, none, some, List, [], ◌∷◌, ◌++◌,
  if◌then◌else◌, is_some, find?, leb, map_option, map,
}
use chipatelier.Prelude.Partial.{◌>>=◌}
use chipatelier.Prelude.Text.{Text, codes, eq_text, strip_prefix, is_space, take_token, skip_spaces}

-- `\S+\.tcl,` over a whole token: something before `.tcl,` at its end
unfoldable pub is_script : Text → Bool
unfolding eq_text
is_script [] = false
is_script (c ∷ cs) = eq_text cs (codes ".tcl,") || is_script cs

abbrev pub non_empty : Text → Option Text
non_empty [] = none
non_empty (c ∷ cs) = some (c ∷ cs)

-- `\s+`
unfoldable pub spaces : Text → Option Text
spaces [] = none
spaces (c ∷ cs) = if is_space c then some (skip_spaces cs) else none

-- `Running (\S+\.tcl), stage (\S+)` at the start of a text: group 2
unfoldable pub match_stage_line : Text → Option Text
match_stage_line line = do
  rest ← strip_prefix (codes "Running ") line
  let (script, behind) = take_token rest
  id ← strip_prefix (codes " stage ") behind
  if is_script script then non_empty (take_token id).0 else none

-- `Running\s+\S+\.tcl,\s+stage\s+(\S+)` at the start of a text: group 1
unfoldable pub match_stage_line_re : Text → Option Text
match_stage_line_re line = do
  rest ← strip_prefix (codes "Running") line
  word ← spaces rest
  let (script, behind) = take_token word
  gap ← spaces behind
  id ← strip_prefix (codes "stage") gap
  last ← spaces id
  if is_script script then non_empty (take_token last).0 else none

-- `pattern.search(line)`: the first place where the pattern matches
unfoldable pub search_line : (Text → Option Text) → Text → Option Text
search_line match [] = match []
search_line match (c ∷ cs) =
    let later = search_line match cs in elim (match (c ∷ cs)) [ none ↦ later | some id ↦ some id ]

-- `_STAGE_ID_MAP`
abbrev pub stage_id_map : List (Text × String)
stage_id_map =
    (codes "1_1_yosys", "synthesis")
    ∷ (codes "1_2_yosys", "synthesis")
    ∷ (codes "2_1_floorplan", "floorplan")
    ∷ (codes "3_1_place", "place")
    ∷ (codes "3_3_place", "place")
    ∷ (codes "3_4_place", "place")
    ∷ (codes "3_5_place", "place")
    ∷ (codes "4_1_cts", "cts")
    ∷ (codes "5_1_grt", "route")
    ∷ (codes "5_2_route", "route")
    ∷ (codes "5_3_fillcell", "route")
    ∷ (codes "6_report", "finish")
    ∷ (codes "6_1_merge", "finish")
    ∷ []

-- `prefix.split("_")[0] + "_"`
unfoldable pub first_field : Text → Text
first_field [] = codes "_"
first_field (c ∷ cs) =
    let rest = first_field cs in if eq_text (c ∷ []) (codes "_") then codes "_" else c ∷ rest

abbrev pub starts_with : Text → Text → Bool
starts_with xs prefix = is_some (strip_prefix prefix xs)

-- `if stage_id in _STAGE_ID_MAP`
unfoldable pub exact_stage : Text → List (Text × String) → Option String
unfolding eq_text
exact_stage id [] = none
exact_stage id ((key, stage) ∷ entries) =
    if eq_text key id then some stage else exact_stage id entries

-- `for prefix, stage in _STAGE_ID_MAP.items()`
unfoldable pub prefix_stage : Text → List (Text × String) → Option String
unfolding first_field strip_prefix eq_text
prefix_stage id [] = none
prefix_stage id ((key, stage) ∷ entries) =
    if starts_with id (first_field key) then some stage else prefix_stage id entries

unfoldable pub stage_of_id : Text → Option String
unfolding exact_stage prefix_stage
stage_of_id id = elim (exact_stage id stage_id_map) [
  | some stage ↦ some stage
  | none ↦ prefix_stage id stage_id_map
]

unfoldable pub detect_stage : Text → Option String
detect_stage line = do id ← search_line match_stage_line_re line; stage_of_id id

-- `STAGE_ID_TO_NAME` of the worker
abbrev pub stage_id_to_name : List (Text × Text)
stage_id_to_name =
    (codes "1_", codes "SYNTHESIS")
    ∷ (codes "2_", codes "FLOORPLAN")
    ∷ (codes "3_", codes "PLACEMENT")
    ∷ (codes "4_", codes "CTS")
    ∷ (codes "5_1_grt", codes "GLOBAL ROUTE")
    ∷ (codes "5_2", codes "DETAIL ROUTE")
    ∷ (codes "6_", codes "FINISH")
    ∷ []

-- `str.upper`, for ASCII letters
unfoldable pub upper : Text → Text
upper = map (λ c. if leb b'a' c && leb c b'z' then c - 32 else c)

unfoldable pub stage_name : Text → Text
unfolding upper strip_prefix
stage_name id = elim (find? (λ (entry : Text × Text). starts_with id entry.0) stage_id_to_name) [
  | none ↦ upper id
  | some entry ↦ entry.1
]

-- `SEPARATOR_FMT.format(stage=stage)`
abbrev pub separator : Text → Text
separator stage = codes "═══ " ++ stage ++ codes " ══════════════════════════════════"
