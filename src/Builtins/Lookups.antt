-- ===== src/Builtins/Lookups.antt =====
-- tools/builtins/web_search.py, calculator.py and current_time.py: the search engine, `eval` and the
-- clock with its time zones are arguments.
use yellowbullv.Shared.{
  String, none, some, List, [], ◌∷◌, map, if◌then◌else◌, cat, concat, join, str_or, str_eq,
}
use yellowbullv.Shared.Json.{ℤ}
use yellowbullv.Dict.{Dict, lookup}
use yellowbullv.Tools.{ToolResult}
use yellowbullv.Builtins.{Raises, Io, ok, raised, failure_text, result, failure}
use yellowbullv.Builtins.Lines.{slice}

-- What importing `duckduckgo_search` and asking it ends in; the values of a result are texts.
pub data Search : Type 0 where
  not_installed : Search
  search_failed : String → Search
  found : List (Dict String) → Search

-- `r.get(key, default)`
unfoldable pub get_or : String → String → Dict String → String
get_or key default r = elim (lookup key r) [ none ↦ default | some v ↦ v ]

unfoldable pub format_result : Dict String → String
unfolding get_or
format_result r = concat (
    "["
    ∷ get_or "title" "N/A" r
    ∷ "]("
    ∷ get_or "href" "" r
    ∷ ")\n"
    ∷ get_or "body" (get_or "description" "" r) r
    ∷ [])

unfoldable pub web_search : (String → ℤ → Search) → String → ℤ → ToolResult
unfolding format_result
web_search ddgs query max_results = elim (ddgs query max_results) [
  | not_installed ↦ failure "Web search unavailable: duckduckgo_search not installed"
  | search_failed e ↦ failure (cat "Search failed: " e)
  | found results ↦ result (
      str_or (join "\n\n" (map format_result (slice 0 (some max_results) results)))
        "No results found")
]

-- `eval` is given no builtins and the thirteen names of `allowed_names`; `evaluate` is it with `str`. An
-- expression reaches every class through the attributes of a value, and so it may change the store.
unfoldable pub calculator : {S : Type 0} → (String → Io S String) → String → S → ToolResult × S
calculator evaluate expression st =
    let (value, st') = evaluate expression st in
    elim value [
      | ok text ↦ (result text, st')
      | raised e ↦ (failure (cat "Calculation error: " (failure_text e)), st')
    ]

-- A clock with its zones: `ZoneInfo`, and `datetime.now(tz).strftime("%Y-%m-%d %H:%M:%S %Z")`.
pub record Clock : Type 1 where
  pub Zone : Type 0
  pub utc : Zone
  pub zone_info : String → Raises Zone
  pub now : Zone → Raises String

unfoldable pub current_time : Clock → String → ToolResult
current_time clock timezone =
    let zone : Raises clock.Zone =
      if str_eq timezone "UTC" then ok clock.utc else clock.zone_info timezone in
    elim zone [
      | raised e ↦ failure (cat "Timezone error: " (failure_text e))
      | ok tz ↦ elim (clock.now tz) [
        | raised e ↦ failure (cat "Timezone error: " (failure_text e))
        | ok text ↦ result text
      ]
    ]
