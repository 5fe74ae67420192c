-- ===== src/Mysql/Value.antt =====
-- contracts/mysqlv1/types.go and validate.go: typed values as the contract exchanges them.
-- A json.RawMessage is modelled by the JSON value that it holds: the code only ever asks whether it
-- is null and which text it decodes to.
use Prim.Native.String
use x_mock_mcp.Prelude.{
  ℕ, ◌+◌, ◌-◌, ◌^◌, String, Bool, true, false, not, ◌&&◌, Option, none, some, leb, nat_eq, ◌==◌,
  if◌then◌else◌,
}
use x_mock_mcp.Prelude.Int.{ℤ, pos, negsuc}
use x_mock_mcp.Prelude.Text.{digits, decimal}

-- `missing` is the empty message of a zero Value, `other` any document that is no text and not null.
pub data Json : Type 0 where
  missing null : Json
  text : String → Json
  other : String → Json

pub record Value : Type 0 where
  pub type : String
  pub value : Json

abbrev pub zero_value : Value
zero_value = record { type = ""; value = missing }

pub record Column : Type 0 where
  pub name : String
  pub type : String
  pub nullable : Bool

pub record SessionStatus : Type 0 where
  pub autocommit : Bool
  pub in_transaction : Bool

abbrev pub max_int64 : ℕ
max_int64 = 2 ^ 63 - 1

-- The value and the success of strconv.ParseInt(s, 10, 64); out of range it clamps and fails.
abbrev pub clamp_pos : Option ℕ → ℤ × Bool
clamp_pos none = (pos 0, false)
clamp_pos (some n) = if leb n max_int64 then (pos n, true) else (pos max_int64, false)

abbrev pub clamp_neg : Option ℕ → ℤ × Bool
clamp_neg none = (pos 0, false)
clamp_neg (some n) =
    if nat_eq n 0
    then (pos 0, true)
    else if leb n (2 ^ 63)
    then (negsuc (n - 1), true)
    else (negsuc max_int64, false)

unfoldable pub parse_int64 : String → ℤ × Bool
unfolding digits
parse_int64 String.[] = (pos 0, false)
parse_int64 (String.◌∷◌ c rest) =
    if String.◌∷◌ c String.[] == "-"
    then clamp_neg (digits rest)
    else if String.◌∷◌ c String.[] == "+"
    then clamp_pos (digits rest)
    else clamp_pos (digits (String.◌∷◌ c rest))

-- strconv.FormatInt(n, 10)
unfoldable pub format_int64 : ℤ → String
unfolding decimal
format_int64 (pos n) = decimal n
format_int64 (negsuc n) = String.◌++◌ "-" (decimal (n + 1))

-- func Int, func Text, func Null
unfoldable pub int_value : ℤ → Value
unfolding format_int64
int_value n = record { type = "BIGINT"; value = text (format_int64 n) }

unfoldable pub text_value : String → Value
text_value s = record { type = "VARCHAR"; value = text s }

unfoldable pub null_value : String → Value
null_value type = record { type = type; value = null }

-- func (v Value) IsNull
unfoldable pub is_null : Value → Bool
is_null v = elim v.value [ null ↦ true | _ ↦ false ]

-- func (v Value) String: the text, and whether there is no error. Decoding null into a Go string
-- leaves it empty without an error.
unfoldable pub string_of : Value → String × Bool
string_of v = elim v.value [ text s ↦ (s, true) | null ↦ ("", true) | _ ↦ ("", false) ]

-- func (v Value) Int64
unfoldable pub int64_of : Value → ℤ × Bool
unfolding string_of parse_int64
int64_of v = let (s, fine) = string_of v in if fine then parse_int64 s else (pos 0, false)

-- func ValidateValue, with the error's text. (A native text is always valid UTF-8.)
unfoldable pub validate_text : Column → Json → Option String
unfolding parse_int64 format_int64
validate_text column (text s) =
    if column.type == "BIGINT"
    then (let (n, fine) = parse_int64 s in
        if fine && format_int64 n == s
        then none
        else some (String.◌++◌ "column " (String.◌++◌ column.name ": invalid canonical int64")))
    else none
validate_text column _ =
    some (String.◌++◌ "column " (String.◌++◌ column.name " must use a typed string"))

unfoldable pub validate_value : Column → Value → Option String
unfolding is_null validate_text
validate_value column v =
    if not (v.type == column.type)
    then some (
        String.◌++◌ "column " (
          String.◌++◌ column.name
            (String.◌++◌ ": expected " (String.◌++◌ column.type (String.◌++◌ ", got " v.type)))))
    else if not (column.type == "BIGINT") && not (column.type == "VARCHAR")
    then some (String.◌++◌ "unsupported type " column.type)
    else if is_null v
    then (if column.nullable
        then none
        else some (String.◌++◌ "column " (String.◌++◌ column.name " does not allow NULL")))
    else validate_text column v.value
