-- ===== src/Agent/Tools/Generate.antt =====
-- `test_generator` of agent.py, with its three regular expressions. Letters, digits and white space
-- are the ASCII ones.
use bulletfarm.Prelude.{
  ℕ, String, ◌<>◌, Bool, ◌&&◌, ◌||◌, not, Option, none, some, List, [], ◌∷◌, beq, leb, is_space,
  is_blank, is_empty, if◌then◌else◌,
}
use bulletfarm.Prelude.Exec.{ExnKind, file_not_found, pure, attempt, ◌>>=◌}
use bulletfarm.Prelude.Find.{
  strip_prefix, starts_text, ends_text, replace_from, split_while, split_some, find_all,
}
use bulletfarm.Outside.{Call, Act, Machine, call}

infixl 10 ◌>>=?◌
abbrev ◌>>=?◌ : {A B : Type 0} → Option A → (A → Option B) → Option B
none >>=? f = none
some a >>=? f = f a

-- `\w`
abbrev pub is_word : ℕ → Bool
is_word c =
    leb b'a' c && leb c b'z'
    || (leb b'A' c && leb c b'Z' || (leb b'0' c && leb c b'9' || beq c b'_'))

-- `\s*`
abbrev pub skip_space : String → String
skip_space s = (split_while is_space s).1

-- `[^'\"]`
abbrev pub is_unquoted : ℕ → Bool
is_unquoted c = not (beq c 39 || beq c 34)

-- `['\"]`
unfoldable pub strip_quote : String → Option String
unfolding strip_prefix
strip_quote s = elim (strip_prefix "'" s) [ some rest ↦ some rest | none ↦ strip_prefix "\"" s ]

-- `def (\w+)\(`
unfoldable pub python_function : String → Option (String × String)
unfolding strip_prefix split_some
python_function s = strip_prefix "def " s >>=? λ after_def.
    split_some is_word after_def >>=? λ word.
    strip_prefix "(" word.1 >>=? λ rest. some (word.0, rest)

-- `(get|post|put|delete|patch)`, with what `upper` makes of the method
unfoldable pub http_method : String → Option ((String × String) × String)
unfolding strip_prefix
http_method s = elim (strip_prefix "get" s) [
  | some rest ↦ some (("get", "GET"), rest)
  | none ↦ elim (strip_prefix "post" s) [
    | some rest ↦ some (("post", "POST"), rest)
    | none ↦ elim (strip_prefix "put" s) [
      | some rest ↦ some (("put", "PUT"), rest)
      | none ↦ elim (strip_prefix "delete" s) [
        | some rest ↦ some (("delete", "DELETE"), rest)
        | none ↦ elim (strip_prefix "patch" s) [
          | some rest ↦ some (("patch", "PATCH"), rest)
          | none ↦ none
        ]
      ]
    ]
  ]
]

-- A route: its method, the same in capitals, and its path.
pub record Route : Type 0 where
  pub method : String
  pub upper : String
  pub path : String

-- `app\.(get|…)\s*\(\s*['\"]([^'\"]+)`
unfoldable pub js_route : String → Option (Route × String)
unfolding strip_prefix http_method strip_quote split_some
js_route s = strip_prefix "app." s >>=? λ after_app. http_method after_app >>=? λ method.
    strip_prefix "(" (skip_space method.1) >>=? λ after_paren.
    strip_quote (skip_space after_paren) >>=? λ quoted. split_some is_unquoted quoted >>=? λ path.
    some (record { method = method.0.0; upper = method.0.1; path = path.0 }, path.1)

-- `(?:module\.exports|export)`
unfoldable pub export_word : String → Option String
unfolding strip_prefix
export_word s = elim (strip_prefix "module.exports" s) [
  | some rest ↦ some rest
  | none ↦ strip_prefix "export" s
]

-- `(?:module\.exports|export)\s*=\s*(\w+)`
unfoldable pub js_export : String → Option (String × String)
unfolding export_word strip_prefix split_some
js_export s = export_word s >>=? λ word. strip_prefix "=" (skip_space word) >>=? λ after_equals.
    split_some is_word (skip_space after_equals)

-- One stub for each function whose name does not begin with `_`.
unfoldable pub python_stubs : List String → String
unfolding strip_prefix
python_stubs [] = ""
python_stubs (name ∷ names) =
    let rest = python_stubs names in
    if starts_text "_" name
    then rest
    else ("def test_" <> name <> "():\n    # TODO: implement test\n    pass\n\n") <> rest

unfoldable pub js_stub : Route → String
js_stub r =
    "describe('" <> r.upper <> " " <> r.path
    <> "', () => {\n  test('should respond', async () => {\n    const res = await request(app)."
    <> r.method <> "('" <> r.path
    <> "');\n    expect(res.statusCode).toBeDefined();\n  });\n});\n\n"

unfoldable pub js_stubs : List Route → String
unfolding js_stub
js_stubs [] = ""
js_stubs (r ∷ routes) = js_stub r <> js_stubs routes

unfoldable pub python_tests : String → String → String
unfolding find_all python_function python_stubs
python_tests file_path content =
    ("\"\"\"Auto-generated tests for " <> file_path <> ".\"\"\"\n\nimport pytest\n\n")
    <> python_stubs (find_all python_function 0 content)

unfoldable pub js_tests : String → String → String
unfolding find_all js_route js_export js_stubs replace_from
js_tests file_path content =
    ("// Auto-generated tests for " <> file_path <> "\n\n")
    <> "const request = require('supertest');\n"
    <> (if is_empty (find_all js_export 0 content)
        then ""
        else "const app = require('" <> replace_from ".js" "" 0 file_path <> "');\n\n")
    <> js_stubs (find_all js_route 0 content)

-- `test_code`, by the suffix of the file
unfoldable pub test_code : String → String → String
unfolding ends_text python_tests js_tests
test_code file_path content =
    if ends_text ".py" file_path
    then python_tests file_path content
    else if ends_text ".js" file_path || ends_text ".ts" file_path
    then js_tests file_path content
    else "// No test generator available for " <> file_path <> "\n"

unfoldable pub generated : String → String
generated code = if is_blank code then "No testable functions/routes found." else code

-- `except FileNotFoundError`, and `except Exception`
unfoldable pub generator_error : String → ExnKind → String → String
generator_error file_path file_not_found message = "Error: Source file not found: " <> file_path
generator_error file_path _ message = "Error generating tests: " <> message

-- The argument `test_framework` is not used.
unfoldable pub test_generator : Machine → String → String → Act String
unfolding test_code generated generator_error
test_generator m file_path test_framework =
    attempt
      (do
        content ← call m.read_file (Call.read_file file_path)
        pure (generated (test_code file_path content)))
      (λ e. pure (generator_error file_path e.kind e.message))
