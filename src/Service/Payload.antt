-- ===== src/Service/Payload.antt =====
-- The task that `lifespan` reads from `TASK_PAYLOAD`.
use bulletfarm.Prelude.{
  ℕ, String, Bool, true, false, ◌&&◌, Option, none, some, List, [], ◌∷◌, any, beq, lower, codes,
  if◌then◌else◌,
}
use bulletfarm.Prelude.Dict.{get}
use bulletfarm.Outside.{Value, text, number, flag, texts, Doc}
use bulletfarm.Models.{TaskRequest}

-- A field of the payload as `TaskRequest` validates it, with `default` where the key is missing. A
-- value of another kind raises: `none`.
unfoldable pub text_field : Option Value → Option String → Option String
text_field none default = default
text_field (some (text s)) default = some s
text_field (some _) default = none

-- The texts that pydantic takes for a flag.
abbrev pub true_words : List String
true_words = "1" ∷ "on" ∷ "t" ∷ "true" ∷ "y" ∷ "yes" ∷ []

abbrev pub false_words : List String
false_words = "0" ∷ "off" ∷ "f" ∷ "false" ∷ "n" ∷ "no" ∷ []

unfoldable pub same_codes : List ℕ → List ℕ → Bool
same_codes [] [] = true
same_codes (c ∷ s) (d ∷ t) = beq c d && same_codes s t
same_codes _ _ = false

-- A text that stands for a flag, in capitals or not.
unfoldable pub flag_of_word : String → Option Bool
unfolding same_codes
flag_of_word s =
    if any (λ word. same_codes (lower s) (codes word)) true_words
    then some true
    else if any (λ word. same_codes (lower s) (codes word)) false_words
    then some false
    else none

unfoldable pub flag_field : Option Value → Bool → Option Bool
unfolding flag_of_word
flag_field none default = some default
flag_field (some (flag b)) default = some b
flag_field (some (number n)) default =
    if beq n 0 then some false else if beq n 1 then some true else none
flag_field (some (text s)) default = flag_of_word s
flag_field (some _) default = none

unfoldable pub texts_field : Option Value → Option (List String)
texts_field none = some []
texts_field (some (texts l)) = some l
texts_field (some _) = none

-- `payload.get("prompt", payload.get("description", ""))`
unfoldable pub prompt_field : Option Value → Option Value → Option String
unfolding text_field
prompt_field none description = text_field description (some "")
prompt_field (some v) description = text_field (some v) none

infixl 10 ◌>>=◌
abbrev ◌>>=◌ : {A B : Type 0} → Option A → (A → Option B) → Option B
none >>= f = none
some a >>= f = f a

-- The request, or `none` where the source raises: a required key is missing, or a field is invalid.
unfoldable pub request_of_payload : Doc → Option TaskRequest
unfolding text_field flag_field texts_field prompt_field get
request_of_payload payload = do
  task_id ← text_field (get payload "task_id") none
  agent_ref ← text_field (get payload "agent_ref") none
  repository ← text_field (get payload "repository") none
  prompt ← prompt_field (get payload "prompt") (get payload "description")
  target_branch ← text_field (get payload "target_branch") (some "agent-changes")
  skills ← texts_field (get payload "skills")
  is_retry ← flag_field (get payload "is_retry") false
  pr_url ← text_field (get payload "pr_url") (some "")
  some (record {
    task_id = task_id;
    agent_ref = agent_ref;
    repository = repository;
    prompt = prompt;
    target_branch = target_branch;
    skills = skills;
    is_retry = is_retry;
    pr_url = pr_url;
  })
