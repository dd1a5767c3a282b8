-- ===== src/Agent/Skills.antt =====
-- The tools of agent.py by their names: the core tools, the registry of skills, and the selection
-- that `_select_tools` and `run_task` make. What the tools do is in Agent/Tools.
use bulletfarm.Prelude.{String, none, some, List, [], ◌∷◌, ◌++◌}
use bulletfarm.Prelude.Dict.{Dict, get}

-- The keys of `_build_core_tools`.
abbrev pub core_tools : List String
core_tools = "read_file" ∷ "list_files" ∷ "search_shared_knowledge" ∷ []

-- `_build_skill_tools`: a skill and the name of the tool that its factory makes.
abbrev pub skill_registry : Dict String
skill_registry =
    ("code-edit", "code_edit")
    ∷ ("testing", "test_generator")
    ∷ ("test-generator", "test_generator")
    ∷ ("graphql", "graphql_debug")
    ∷ ("graphql-debug", "graphql_debug")
    ∷ ("documentation", "doc_update")
    ∷ ("doc-update", "doc_update")
    ∷ []

-- The loop over the requested skills; an unknown skill is skipped.
unfoldable pub skill_tools : List String → List String
unfolding get
skill_tools [] = []
skill_tools (skill ∷ skills) =
    let rest = skill_tools skills in
    elim (get skill_registry skill) [ none ↦ rest | some tool ↦ tool ∷ rest ]

unfoldable pub select_tools : List String → List String
unfolding skill_tools
select_tools skills = core_tools ++ skill_tools skills
