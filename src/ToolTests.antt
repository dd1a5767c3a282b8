-- ===== src/ToolTests.antt =====
-- The results on the agent's tools, at concrete files.
use bulletfarm.Prelude.{◌≡◌, refl, String, ◌<>◌, [], ◌∷◌, count_text, is_blank}
use bulletfarm.Prelude.Exec.{ok}
use bulletfarm.Outside.{Call, Machine}
use bulletfarm.Agent.Tools.Edit.{code_edit}
use bulletfarm.Agent.Tools.Edit.Laws.{IsSplit, code_edit_replaces}
use bulletfarm.Agent.Tools.Generate.{test_code}
use bulletfarm.Agent.Tools.Docs.{Templates}

-- A machine where each file holds the text given.
abbrev holding : String → Machine
holding content = record {
  run = λ h. ok (record { returncode = 0; stdout = "a.py" });
  read_file = λ h. ok content;
  write_file = λ h. ok tt;
  make_dirs = λ h. ok tt;
  post = λ h. ok (record { status_code = 200; body = "{}" });
}

abbrev templates : Templates
templates t = ok (λ header body. t)

code_edit_replaces_example :
    (front : String) × (rest : String) × IsSplit ("x = 1\ny = " <> ("1" <> "\n")) "1" 10 front rest
    × ((code_edit (holding ("x = 1\ny = " <> ("1" <> "\n"))) "/w/a.py" "1" "2" []).1
        ≡ Call.write_file "/w/a.py" (front <> ("2" <> rest)) ∷ Call.read_file "/w/a.py" ∷ [])
unfolding is_blank count_text
code_edit_replaces_example =
    code_edit_replaces (holding ("x = 1\ny = " <> ("1" <> "\n"))) "/w/a.py" "1" "2" [] "x = 1\ny = "
      "\n" refl refl

abbrev manual : String
manual = "# Manual\n\n## Use\nold\n\n## Installation\npip\n"

abbrev python_file : String
python_file = "def run(x):\n    return x\n"

-- The stub for the one public function.
python_stub :
    test_code "a.py" "def run(x):\n    pass\ndef _help(y):\n    pass\n"
    ≡ "\"\"\"Auto-generated tests for a.py.\"\"\"\n\nimport pytest\n\ndef test_run():\n    # TODO: implement test\n    pass\n\n"
unfolding test_code
python_stub = refl

js_stub :
    test_code "s.js" "const app = 1\napp.get('/users', f)\nmodule.exports = app\n"
    ≡ "// Auto-generated tests for s.js\n\nconst request = require('supertest');\nconst app = require('s');\n\ndescribe('GET /users', () => {\n  test('should respond', async () => {\n    const res = await request(app).get('/users');\n    expect(res.statusCode).toBeDefined();\n  });\n});\n\n"
unfolding test_code
js_stub = refl
