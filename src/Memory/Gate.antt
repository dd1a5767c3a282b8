-- ===== src/Memory/Gate.antt =====
-- `should_write_to_shared_memory` of memory.py.
use bulletfarm.Prelude.{
  String, ◌≡◌, ◌↔◌, ◌⊎◌, Bool, true, false, ◌||◌, not, List, [], ◌∷◌, arith, keep, is_empty, ◌==◌,
  eq_iff, if◌then◌else◌,
}

-- `t in {"code_edit", "test_generator", "doc_update", "graphql_debug"}`
unfoldable pub is_skill_tool : String → Bool
is_skill_tool t =
    t == "code_edit" || (t == "test_generator" || (t == "doc_update" || t == "graphql_debug"))

unfoldable pub should_write_to_shared_memory : String → Bool → List String → Bool
unfolding is_skill_tool
should_write_to_shared_memory task_status has_code_changes tools_called =
    if not (task_status == "Succeeded" || task_status == "success")
    then false
    else if not has_code_changes
    then false
    else if is_empty (keep is_skill_tool tools_called)
    then false
    else true

-- A tool of the four is among those called.
abbrev pub UsedSkillTool : List String → Type 0
UsedSkillTool [] = ⊥
UsedSkillTool (t ∷ ts) =
    ((t ≡ "code_edit") ⊎ (t ≡ "test_generator") ⊎ (t ≡ "doc_update") ⊎ (t ≡ "graphql_debug"))
    ⊎ UsedSkillTool ts

used→UsedSkillTool :
    (ts : List String) → is_empty (keep is_skill_tool ts) ≡ false → UsedSkillTool ts
unfolding is_skill_tool
used→UsedSkillTool [] h = ground arith
used→UsedSkillTool (t ∷ ts) h = ground (
  arith,
  eq_iff t "code_edit",
  eq_iff t "test_generator",
  eq_iff t "doc_update",
  eq_iff t "graphql_debug",
  used→UsedSkillTool ts,
)

UsedSkillTool→used :
    (ts : List String) → UsedSkillTool ts → is_empty (keep is_skill_tool ts) ≡ false
unfolding is_skill_tool
UsedSkillTool→used [] h = absurd h
UsedSkillTool→used (t ∷ ts) h = ground (
  arith,
  eq_iff t "code_edit",
  eq_iff t "test_generator",
  eq_iff t "doc_update",
  eq_iff t "graphql_debug",
  UsedSkillTool→used ts,
)

-- The gate opens exactly for a status of "Succeeded" or "success", with code changes, when one of
-- `code_edit`, `test_generator`, `doc_update` and `graphql_debug` is among the tools called. This is
-- the test of the code; its docstring leaves out `graphql_debug`.
pub should_write_to_shared_memory_iff :
    (status : String) (changes : Bool) (tools : List String)
    → (should_write_to_shared_memory status changes tools ≡ true)
      ↔ (((status ≡ "Succeeded") ⊎ (status ≡ "success")) × (changes ≡ true) × UsedSkillTool tools)
unfolding should_write_to_shared_memory
should_write_to_shared_memory_iff status changes tools = (
  λ h. ground (arith, eq_iff status "Succeeded", eq_iff status "success", used→UsedSkillTool tools),
  λ h.
      ground
        (arith, eq_iff status "Succeeded", eq_iff status "success", UsedSkillTool→used tools h.2),
)
