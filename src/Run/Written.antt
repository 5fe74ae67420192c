-- ===== src/Run/Written.antt =====
-- internal/run/manager.go, limitedWriter: how much of a job's output reaches its log.
use x_mock_mcp.Prelude.{
  [], arith, if_elim, length, length-append, ltb, refl, suc, zero, ℕ, ◌*◌, ◌+◌, ◌^◌, ◌∷◌, ◌≡◌, ◌≤◌,
}
use x_mock_mcp.Run.Log.{Answer, Bytes, Log, cut, cuts, new_log, take, write}

-- An io.Writer takes no more than it is handed.
abbrev pub IsWriter : (Bytes → Answer) → Type 0
IsWriter file = (bytes : Bytes) → (file bytes).count ≤ length bytes

pub length-take : (n : ℕ) (bs : Bytes) → n ≤ length bs → length (take n bs) ≡ n
unfolding take
length-take zero bs h = refl
length-take (suc n) [] h = absurd (omega arith)
length-take (suc n) (b ∷ bs) h = omega (arith, length-take n bs (omega arith))

pub length-cut : (bytes : Bytes) (w : Log) → length (cut bytes w) ≤ w.remaining
unfolding cut cuts
length-cut bytes w =
    if_elim (λ (c : Bytes). length c ≤ w.remaining) (ltb w.remaining (length bytes)) _ _
      (λ long. omega (arith, length-take w.remaining bytes (ground arith))) (λ fits. ground arith)

-- What is written and what remains are together the limit.
pub record IsWithin (w : Log) : Type 0 where
  pub total : length w.written + w.remaining ≡ 4 * 2 ^ 20

pub new_log-IsWithin : IsWithin new_log
unfolding new_log
new_log-IsWithin = record { total = refl }

pub write-IsWithin :
    (file : Bytes → Answer)
    → IsWriter file
    → (bytes : Bytes) (w : Log) → IsWithin w
    → IsWithin (write file bytes w).0
unfolding write
write-IsWithin file honest bytes w within = record {
  total = rw length-append (
      omega (
        arith,
        within.total,
        length-cut bytes w,
        honest (cut bytes w),
        length-take (file (cut bytes w)).count (cut bytes w) (honest (cut bytes w)),
      ));
}
