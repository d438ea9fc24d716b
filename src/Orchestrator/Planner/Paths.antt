-- ===== src/Orchestrator/Planner/Paths.antt =====
-- crates/orchestrator/src/planner_types.rs: the file paths of a task and of a free text.
use alpha_swarm.Prelude.{
  Text, text, text_eq, contains, List, [], ◌∷◌, ◌++◌, map, filter, find, any, Option, none, some,
  Bool, true, false, not, ◌&&◌, ◌||◌, if◌then◌else◌, starts_with, ends_with, text_contains,
  rsplit_once, split_at_byte, split_whitespace, trim_matches,
}
use alpha_swarm.Orchestrator.Task.{SubTask}
use alpha_swarm.Orchestrator.Planner.Env.{PlannerEnv}

abbrev pub first_of : List Text → Text
first_of [] = []
first_of (t ∷ ts) = t

-- A path split at its last slash becomes the first file of its directory with the same stem.
abbrev pub resolved_at : List Text → Text → Option (Text × Text) → Text
resolved_at repo_files f none = f
resolved_at repo_files f (some (dir, name)) =
    let stem = first_of (split_at_byte b'.' name) in
    let prefix = dir ++ (text "/" ++ (stem ++ text ".")) in
    elim (find (λ rf. starts_with rf prefix) repo_files) [ some m ↦ m | none ↦ f ]

unfoldable pub resolve_path : List Text → Text → Text
unfolding rsplit_once split_at_byte
resolve_path repo_files f =
    if contains repo_files f then f else resolved_at repo_files f (rsplit_once b'/' f)

-- Whether a path stays in a task, of which some file exists if `has_existing`.
unfoldable pub keep_file : List Text → Bool → Text → Bool
unfolding text_contains rsplit_once
keep_file repo_files has_existing f =
    if contains repo_files f
    then true
    else if not (text_contains f (text ".")) || text_contains f (text " ")
    then false
    else if not has_existing
    then true
    else elim (rsplit_once b'/' f) [
      | none ↦ true
      | some (dir, name) ↦ not (any (λ rf. starts_with rf (dir ++ text "/")) repo_files)
    ]

unfoldable pub validate_files : List Text → SubTask → SubTask
unfolding resolve_path keep_file
validate_files repo_files t =
    let exact = filter (λ f. not (text_contains f (text "*"))) t.files in
    let resolved = map (resolve_path repo_files) exact in
    let has_existing = any (contains repo_files) resolved in
    record t { files = filter (keep_file repo_files has_existing) resolved }

abbrev extensions : List Text
extensions =
    text ".rs"
    ∷ text ".ts"
    ∷ text ".tsx"
    ∷ text ".js"
    ∷ text ".jsx"
    ∷ text ".py"
    ∷ text ".go"
    ∷ text ".toml"
    ∷ text ".json"
    ∷ text ".yaml"
    ∷ text ".yml"
    ∷ text ".md"
    ∷ text ".css"
    ∷ text ".html"
    ∷ []

-- The characters that `trim_matches` strips from a word.
abbrev is_edge : PlannerEnv → Text → Bool
is_edge env c =
    not (env.is_alphanumeric c)
    && (not (text_eq c (text "/"))
        && (not (text_eq c (text "."))
            && (not (text_eq c (text "_")) && not (text_eq c (text "-")))))

abbrev add_path : Text → List Text → List Text
add_path clean paths =
    if text_contains clean (text "/") && any (λ ext. ends_with clean ext) extensions
    then (if contains paths clean then paths else paths ++ (clean ∷ []))
    else paths

abbrev add_paths : PlannerEnv → List Text → List Text → List Text
add_paths env [] paths = paths
add_paths env (word ∷ words) paths =
    add_paths env words (add_path (trim_matches (is_edge env) word) paths)

unfoldable pub extract_file_paths_from_text : PlannerEnv → Text → List Text
unfolding text_contains ends_with trim_matches split_whitespace
extract_file_paths_from_text env t = add_paths env (split_whitespace t) []
