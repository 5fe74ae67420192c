-- ===== src/Run/Log.antt =====
-- limitedWriter of internal/run/manager.go, through which a job writes its log of at most 4 MiB.
use x_mock_mcp.Api.{Failure, other}
use x_mock_mcp.Prelude.{
  Bool, List, Option, false, if◌then◌else◌, length, ltb, none, not, some, suc, zero, ℕ, ◌&&◌, ◌*◌,
  ◌++◌, ◌-◌, ◌^◌, ◌||◌,
}

-- The bytes of a []byte, or of a file.
abbrev pub Bytes : Type 0
Bytes = List ℕ

unfoldable pub take : ℕ → Bytes → Bytes
take zero bs = List.[]
take (suc n) List.[] = List.[]
take (suc n) (List.◌∷◌ b bs) = List.◌∷◌ b (take n bs)

-- `written` is what has reached the file. An io.Writer never takes more than it is handed, so that
-- the int `remaining` stays natural.
pub record Log : Type 0 where
  pub written : Bytes
  pub remaining : ℕ
  pub exceeded : Bool

-- The writer that Start makes: 4 << 20 bytes remain.
unfoldable pub new_log : Log
new_log = record { written = List.[]; remaining = 4 * 2 ^ 20; exceeded = false }

-- The answer of a Write: a number of bytes, and an error.
pub record Answer : Type 0 where
  pub count : ℕ
  pub failure : Option Failure

unfoldable pub cuts : Bytes → Log → Bool
cuts bytes w = ltb w.remaining (length bytes)

-- What Write hands to the file.
unfoldable pub cut : Bytes → Log → Bytes
unfolding cuts take
cut bytes w = if cuts bytes w then take w.remaining bytes else bytes

unfoldable pub answer : ℕ → Bool → Answer → Answer
answer original exceeded a = elim a.failure [
  | some e ↦ a
  | none ↦
      if exceeded
      then record { count = original; failure = some (other "job output limit exceeded") }
      else a
]

-- func (w *limitedWriter) Write: the log afterwards, whether onExceeded is called, and the answer.
-- `file` is the Write of the log file.
unfoldable pub write : (Bytes → Answer) → Bytes → Log → Log × Bool × Answer
unfolding cut cuts answer take
write file bytes w =
    let a = file (cut bytes w) in
    (
      record {
        written = w.written ++ take a.count (cut bytes w);
        remaining = w.remaining - a.count;
        exceeded = cuts bytes w || w.exceeded;
      },
      cuts bytes w && not w.exceeded,
      answer (length bytes) (cuts bytes w || w.exceeded) a,
    )
