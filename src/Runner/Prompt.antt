-- ===== src/Runner/Prompt.antt =====
-- runner/prompt.py.
use autobench.Prelude.Text.{join}
use autobench.Prelude.{String, ◌⧺◌, Option, none, some, List, [], ◌∷◌, map}

-- An empty context is falsy, so it adds no heading.
context_lines : List (String × String) → List String
context_lines [] = []
context_lines entries = "\nContext:" ∷ map (λ e. "- " ⧺ (e.0 ⧺ (": " ⧺ e.1))) entries

-- The context's values are given as `str` renders them.
unfoldable pub build_prompt : String → Option (List (String × String)) → String
unfolding context_lines
build_prompt task none = "The task you are to complete is:\n" ⧺ task
build_prompt task (some entries) =
    join "\n" (("The task you are to complete is:\n" ⧺ task) ∷ context_lines entries)
