-- ===== src/Memory/Fields.antt =====
-- Fields of a document of Elasticsearch as memory.py and agent.py use them, whatever is stored in them.
use bulletfarm.Prelude.{ℕ, String, Option, none, some, List, [], ◌∷◌, take, take_text}
use bulletfarm.Prelude.Exec.{Result, ok, raised}
use bulletfarm.Outside.{Value, text, texts, time, Host}

-- `doc.get(key, default)`
abbrev pub value_or : Option Value → Value → Value
value_or none default = default
value_or (some v) default = v

-- The characters of a text, over which `join` goes.
unfoldable pub characters : String → List String
characters String.[] = []
characters (String.◌∷◌ c s) = String.◌∷◌ c "" ∷ characters s

module _ (host : Host) where
  -- `f"{v}"`
  unfoldable pub format_value : Value → String
  format_value (text s) = s
  format_value v = host.str v

  -- `f"{v[:n]}"`, where a value that is no text and no list raises. A time is a text in the document.
  unfoldable pub format_slice : ℕ → Value → Result String
  format_slice n (text s) = ok (take_text n s)
  format_slice n (time t) = ok (take_text n (host.str (time t)))
  format_slice n (texts l) = ok (host.str (texts (take n l)))
  format_slice n v = raised (host.type_error v)

  -- What `len` counts and `join` joins, where a value that is no text and no list raises.
  unfoldable pub items : Value → Result (List String)
  unfolding characters
  items (texts l) = ok l
  items (text s) = ok (characters s)
  items (time t) = ok (characters (host.str (time t)))
  items v = raised (host.type_error v)
