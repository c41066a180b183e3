-- ===== src/LogCheck/Trace/Entries.antt =====
-- The entries of a CSV file are those of the instructions before the first `ecall`.
use emucpu.Prelude.{
  ℕ, suc, ◌+◌, Bool, ◌==◌, if◌then◌else◌, List, [], ◌∷◌, ◌++◌, length, some, Result, ok, raise,
  ◌>>=◌, map_ok, arith, ◌≡◌, refl, ◌∙◌, Bool-cases, Result-cases, inl, inr,
}
use mathlib.Core.List.{append_assoc, append-nil}
use native.Mathlib.Nat.{add-zero, zero-add}
use emucpu.Prelude.Text.{Text, codes, contains}
use emucpu.LogCheck.Trace.{
  Vendored, TraceEntry, TraceError, no_instructions, InstrMatch, match_instr, entry_of,
  process_lines, process_ibex_sim_log,
}

-- The lines before the first that mentions `ecall`.
unfoldable pub before_ecall : List Text → List Text
before_ecall [] = []
before_ecall (line ∷ lines) =
    if contains (codes "ecall") line then [] else line ∷ before_ecall lines

-- The lines that show an instruction, each with what it shows.
unfoldable pub instructions : List Text → List (Text × InstrMatch)
instructions [] = []
instructions (line ∷ lines) = elim (match_instr line) [
  | raise e ↦ instructions lines
  | ok m ↦ (line, m) ∷ instructions lines
]

module _ (v : Vendored) (full_trace : Bool) where
  abbrev pub entry : Text × InstrMatch → Result TraceError TraceEntry
  entry p = entry_of v full_trace p.0 p.1

  -- What the loop adds.
  abbrev added :
      ℕ
      → List TraceEntry
      → Result TraceError (List TraceEntry)
      → Result TraceError (ℕ × List TraceEntry)
  added n written (raise e) = raise e
  added n written (ok rows) = ok (n + length rows, written ++ rows)

  added-nothing : (n : ℕ) (written : List TraceEntry) → ok (n, written) ≡ added n written (ok [])
  added-nothing n written = rw (append-nil, add-zero) refl

  added-one :
      (n : ℕ) (written : List TraceEntry) (trace : TraceEntry)
      (more : Result TraceError (List TraceEntry))
      → added (n + 1) (written ++ trace ∷ []) more
        ≡ added n written (more >>= λ rows. ok (trace ∷ rows))
  added-one n written trace (raise e) = refl
  added-one n written trace (ok rows) =
      let count : n + 1 + length rows ≡ n + suc (length rows) = omega arith in
      rw (append_assoc, count) refl

  process_lines-entries :
      (lines : List Text) (n : ℕ) (written : List TraceEntry)
      → process_lines v full_trace lines n written
        ≡ added n written (map_ok entry (instructions (before_ecall lines)))
  unfolding process_lines instructions before_ecall map_ok
  process_lines-entries [] n written = added-nothing n written
  process_lines-entries (line ∷ lines) n written =
      elim (Bool-cases (contains (codes "ecall") line)) [
        | inl ended ↦ rw (process_lines, ended) (added-nothing n written)
        | inr on ↦ elim (Result-cases (match_instr line)) [
          | inl (m, matched) ↦ elim (Result-cases (entry (line, m))) [
            | inl (trace, e) ↦
                rw (process_lines, on, matched, e, instructions)
                  (process_lines-entries lines (n + 1) (written ++ trace ∷ [])
                    ∙ added-one n written trace (map_ok entry (instructions (before_ecall lines))))
            | inr (f, e) ↦ rw (process_lines, on, matched, e, instructions) refl
          ]
          | inr (f, other) ↦
              rw (process_lines, on, other, instructions) (process_lines-entries lines n written)
        ]
      ]

  -- The entries written for a log are those of the lines before the first that mentions `ecall`, as
  -- far as they show an instruction, in their order; the first error among them is that of the
  -- whole, and a log without such lines is refused.
  pub process_ibex_sim_log-entries :
      (lines : List Text)
      → process_ibex_sim_log v full_trace (some lines)
        ≡ map_ok entry (instructions (before_ecall lines)) >>= λ rows.
            if length rows == 0 then raise no_instructions else ok rows
  unfolding process_ibex_sim_log
  process_ibex_sim_log-entries lines =
      rw (process_lines-entries lines 0 [])
        (checked (map_ok entry (instructions (before_ecall lines))))
    where
      checked :
          (found : Result TraceError (List TraceEntry))
          → added 0 [] found
              >>= (λ counted. if counted.0 == 0 then raise no_instructions else ok counted.1)
            ≡ found >>= λ rows. if length rows == 0 then raise no_instructions else ok rows
      checked (raise e) = refl
      checked (ok rows) = rw zero-add refl
