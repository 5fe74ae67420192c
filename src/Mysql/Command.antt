-- ===== src/Mysql/Command.antt =====
-- plugins/right/mysql-mock/transaction.go: how control reads the text of a command.
use Prim.Native.String.{[], ◌∷◌, ◌++◌, slice, len, find}
use Prim.Native.Char.{Char, code}
use text.Mathlib.Text.{starts_with}
use x_mock_mcp.Prelude.{
  String, ◌+◌, ◌-◌, Bool, true, false, not, ◌&&◌, ◌||◌, leb, nat_eq, ◌==◌, if◌then◌else◌,
}
use x_mock_mcp.Prelude.Text.{contains}

-- unicode.IsSpace
abbrev pub is_space : Char → Bool
is_space c =
    (leb 9 (code c) && leb (code c) 13)
    || nat_eq (code c) 32
    || nat_eq (code c) 133
    || nat_eq (code c) 160
    || nat_eq (code c) 5760
    || (leb 8192 (code c) && leb (code c) 8202)
    || nat_eq (code c) 8232
    || nat_eq (code c) 8233
    || nat_eq (code c) 8239
    || nat_eq (code c) 8287
    || nat_eq (code c) 12288

-- One letter of strings.ToUpper, whose only ASCII results are these. (Other letters keep their case
-- here: a command that has any is refused or no command either way.)
abbrev pub upper_letter : Char → String
upper_letter c =
    if leb b'a' (code c) && leb (code c) b'z'
    then slice "ABCDEFGHIJKLMNOPQRSTUVWXYZ" (code c - b'a') (code c - b'a' + 1)
    else if nat_eq (code c) 305
    then "I"
    else if nat_eq (code c) 383
    then "S"
    else c ∷ []

unfoldable pub upper : String → String
upper [] = ""
upper (c ∷ s) = upper_letter c ++ upper s

-- strings.Join(strings.Fields(s), " "): `begun` after the first word has begun, `gap` after a space.
unfoldable pub join_fields : Bool → Bool → String → String
join_fields begun gap [] = ""
join_fields begun gap (c ∷ s) = elim (is_space c) [
  | true ↦ join_fields begun true s
  | false ↦ let word = c ∷ join_fields true false s in if begun && gap then " " ∷ word else word
]

unfoldable pub without_spaces : String → String
without_spaces [] = ""
without_spaces (c ∷ s) =
    let rest = without_spaces s in if nat_eq (code c) 32 then rest else c ∷ rest

-- strings.TrimSuffix(s, ";")
unfoldable pub trim_semicolon : String → String
trim_semicolon s = if slice s (len s - 1) (len s) == ";" then slice s 0 (len s - 1) else s

-- The variable `command` of control.
unfoldable pub normal : String → String
unfolding upper join_fields trim_semicolon
normal sql = trim_semicolon (upper (join_fields false false sql))

-- The cases of control; `foreign` is a text that it does not know.
pub data Command : Type 0 where
  begin_tx commit_tx rollback_tx read_committed other_isolation : Command
  autocommit_on autocommit_off autocommit_invalid unsupported foreign : Command

abbrev pub autocommit_value : String → Command
autocommit_value v =
    if v == "1" || v == "ON"
    then Command.autocommit_on
    else if v == "0" || v == "OFF"
    then Command.autocommit_off
    else Command.autocommit_invalid

abbrev pub isolation : String
isolation = "SET SESSION TRANSACTION ISOLATION LEVEL "

unfoldable pub is_known : String → String → Bool
is_known command compact =
    command == "BEGIN"
    || command == "START TRANSACTION"
    || command == "COMMIT"
    || command == "ROLLBACK"
    || starts_with compact "SETAUTOCOMMIT="
    || starts_with compact "SETSESSIONAUTOCOMMIT="
    || starts_with command isolation
    || starts_with command "SAVEPOINT "
    || starts_with command "ROLLBACK TO "

-- The switch of control, on the normal text.
unfoldable pub classify : String → Command
unfolding without_spaces is_known contains
classify command =
    let compact = without_spaces command in
    if not (is_known command compact)
    then Command.foreign
    else if command == "BEGIN" || command == "START TRANSACTION"
    then Command.begin_tx
    else if command == "COMMIT"
    then Command.commit_tx
    else if command == "ROLLBACK"
    then Command.rollback_tx
    else if starts_with command isolation
    then (if command == "SET SESSION TRANSACTION ISOLATION LEVEL READ COMMITTED"
        then Command.read_committed
        else Command.other_isolation)
    else if contains compact "AUTOCOMMIT="
    then autocommit_value (slice compact (find compact "=" + 1) (len compact))
    else Command.unsupported
