-- ===== src/Core/Llm/JsonValues.antt =====
-- JSON values as Python has them, and the search of a block in braces.
use Prim.Native.Char.{code}
use Prim.Native.String.{[] as nil, ◌∷◌ as cons}
use scraper_v_hezzian.Prelude.{
  string_eq, String, Bool, true, false, not, Option, none, some, if◌then◌else◌, ◌==◌, nat_beq,
}

-- A number is its text; a dict is its pairs, each key once.
mutual
  pub data Value : Type 0 where
    null : Value
    boolean : Bool → Value
    number : String → Value
    text : String → Value
    array : Values → Value
    object : Fields → Value

  pub data Values : Type 0 where
    no_values : Values
    values : Value → Values → Values

  pub data Fields : Type 0 where
    no_fields : Fields
    fields : String → Value → Fields → Fields

-- `d.get(k)`
unfoldable pub field_of : Fields → String → Option Value
field_of no_fields k = none
field_of (fields j v rest) k = if j == k then some v else field_of rest k

-- `bool(v)`; of the numbers, zero is false.
unfoldable pub is_truthy : Value → Bool
is_truthy null = false
is_truthy (boolean b) = b
is_truthy (number n) = not (n == "0")
is_truthy (text s) = not (s == "")
is_truthy (array no_values) = false
is_truthy (array (values v rest)) = true
is_truthy (object no_fields) = false
is_truthy (object (fields k v rest)) = true

-- What is up to the last closing brace, with it.
unfoldable pub to_last_brace : String → Option String
to_last_brace nil = none
to_last_brace (cons c s) = elim (to_last_brace s) [
  | some t ↦ some (cons c t)
  | none ↦ if nat_beq (code c) 125 then some (cons c nil) else none
]

-- `re.search(r"\{.*\}", s, re.DOTALL)`: from the first opening brace to the last closing one.
unfoldable pub brace_block : String → Option String
unfolding to_last_brace
brace_block nil = none
brace_block (cons c s) =
    let rest = brace_block s in if nat_beq (code c) 123 then to_last_brace (cons c s) else rest
