-- ===== src/LogCheck/Trace.antt =====
-- `process_ibex_sim_log` of ibex_log_to_trace_csv.py: the trace of a simulation becomes the entries of
-- a CSV file. The functions on instructions and registers belong to vendored code: parameters.
pub mod Entries
use emucpu.Prelude.{
  ℕ, suc, ◌+◌, ◌-◌, Bool, true, false, not, ◌&&◌, ◌||◌, ◌==◌, leb, if◌then◌else◌, List, [], ◌∷◌,
  ◌++◌, Option, none, some, Result, ok, raise, ◌>>=◌,
}
use emucpu.Prelude.Int.{ℤ, pos, negsuc}
use emucpu.Prelude.Text.{Text, codes, contains, is_space}
use emucpu.Prelude.Dict.{mem_text}
use emucpu.Requirements.Semver.{
  SemverError, span, is_digit, is_hex, some_first, some_digits, literal,
}
use emucpu.Stdlib.Hex.{hex_int}
use emucpu.LogCheck.Operands.{convert_operands_to_abi}

-- The difference of two integers.
abbrev minus_ℕ : ℕ → ℕ → ℤ
minus_ℕ m n = if leb n m then pos (m - n) else negsuc (n - m - 1)

unfoldable pub minus : ℤ → ℤ → ℤ
minus (pos m) (pos n) = minus_ℕ m n
minus (pos m) (negsuc n) = pos (m + n + 1)
minus (negsuc m) (pos n) = negsuc (m + n)
minus (negsuc m) (negsuc n) = minus_ℕ n m

-- `gpr_to_abi`, `sint_to_hex`, `convert_pseudo_instr` and `get_imm_hex_val` of riscv-dv.
pub record Vendored : Type 0 where
  pub gpr_to_abi : Text → Text
  pub sint_to_hex : ℤ → Text
  pub convert_pseudo_instr : Text → Text → Text → Text × Text
  pub get_imm_hex_val : Text → Text

-- A `RiscvInstructionTraceEntry`, with what is set of it.
pub record TraceEntry : Type 0 where
  pub instr_str : Text
  pub instr : Text
  pub pc : Text
  pub binary : Text
  pub operand : Text
  pub imm : Text
  pub gpr : List Text

-- ValueError of `int`; RuntimeError for a log that is missing or holds no instruction.
pub data TraceError : Type 0 where
  value_error : Text → TraceError
  not_found : TraceError
  no_instructions : TraceError

-- The groups of INSTR_RE; `instr` is cut at its white space.
pub record InstrMatch : Type 0 where
  pub pc : Text
  pub binary : Text
  pub instr : Text
  pub between : Text
  pub operands : Text

-- `\s+` and `\S+`
unfoldable pub some_spaces : Text → Result SemverError (Text × Text)
unfolding span is_space
some_spaces s = some_first (span is_space s)

unfoldable pub some_graph : Text → Result SemverError (Text × Text)
unfolding span is_space
some_graph s = some_first (span (λ c. not (is_space c)) s)

-- INSTR_RE, from the start of the line. No character can go to two neighbouring parts, so that
-- there is nothing to try again.
unfoldable pub match_instr : Text → Result SemverError InstrMatch
unfolding some_spaces some_graph some_digits span is_hex is_space
match_instr line = do
  time ← some_digits (span is_space line).1
  s1 ← some_spaces time.1
  cycle ← some_digits s1.1
  s2 ← some_spaces cycle.1
  pc ← some_first (span is_hex s2.1)
  s3 ← some_spaces pc.1
  bin ← some_first (span is_hex s3.1)
  s4 ← some_spaces bin.1
  instr ← some_graph s4.1
  s5 ← some_spaces instr.1
  operands ← some_graph s5.1
  ok (record { pc = pc.0; binary = bin.0; instr = instr.0; between = s5.0; operands = operands.0 })

-- A character of [1-9].
unfoldable pub is_nonzero_digit : ℕ → Bool
is_nonzero_digit c = leb b'1' c && leb c b'9'

-- `[1-9]`, if the text begins with one.
unfoldable pub first_nonzero : Text → Text × Text
unfolding is_nonzero_digit
first_nonzero [] = ([], [])
first_nonzero (c ∷ s) = if is_nonzero_digit c then (c ∷ [], s) else ([], c ∷ s)

-- RD_RE at the start of a text: the number of the register, and its value.
unfoldable pub rd_at : Text → Result SemverError (Text × Text)
unfolding literal first_nonzero span is_digit is_hex
rd_at s = do
  rd_on ← literal (codes "x") s
  first ← some_first (first_nonzero rd_on)
  val_on ← literal (codes "=0x") (span is_digit first.1).1
  val ← some_first (span is_hex val_on)
  ok (first.0 ++ (span is_digit first.1).0, val.0)

abbrev or_later {ℓ} : {A : Type ℓ} → Result SemverError A → Option A → Option A
or_later (ok a) later = some a
or_later (raise e) later = later

-- `RD_RE.search`
unfoldable pub search_rd : Text → Option (Text × Text)
unfolding rd_at
search_rd [] = none
search_rd (c ∷ s) = or_later (rd_at (c ∷ s)) (search_rd s)

-- `[a-z0-9]`
unfoldable pub is_name_char : ℕ → Bool
is_name_char c = (leb b'a' c && leb c b'z') || (leb b'0' c && leb c b'9')

-- ADDR_RE at the start of a text: `rd`, `imm` and `rs1`.
pub record Address : Type 0 where
  pub rd : Text
  pub imm : Text
  pub rs1 : Text

unfoldable pub address_at : Text → Result SemverError Address
unfolding literal span is_name_char is_digit
address_at s = do
  rd ← some_first (span is_name_char s)
  imm_on ← literal (codes ",") rd.1
  imm ← some_first (span (λ c. c == b'-' || is_digit c) imm_on)
  rs1_on ← literal (codes "(") imm.1
  rs1 ← some_first (span is_name_char rs1_on)
  rest ← literal (codes ")") rs1.1
  ok (record { rd = rd.0; imm = imm.0; rs1 = rs1.0 })

-- `ADDR_RE.search`
unfoldable pub search_address : Text → Option Address
unfolding address_at
search_address [] = none
search_address (c ∷ s) = or_later (address_at (c ∷ s)) (search_address s)

abbrev branches : List Text
branches =
    codes "beq"
    ∷ codes "bne"
    ∷ codes "blt"
    ∷ codes "bge"
    ∷ codes "bltu"
    ∷ codes "bgeu"
    ∷ codes "c.beqz"
    ∷ codes "c.bnez"
    ∷ codes "beqz"
    ∷ codes "bnez"
    ∷ codes "bgez"
    ∷ codes "bltz"
    ∷ codes "blez"
    ∷ codes "bgtz"
    ∷ codes "c.j"
    ∷ codes "j"
    ∷ codes "c.jal"
    ∷ codes "jal"
    ∷ []

abbrev or_first : ℕ → Text → Text × Text → Text × Text
or_first c s ([], rest) = if c == b',' then (c ∷ [], s) else ([], c ∷ s)
or_first c s (d ∷ up_to, rest) = (c ∷ d ∷ up_to, rest)

-- What stands up to the last comma, that included, and what stands behind it.
unfoldable pub cut_last_comma : Text → Text × Text
cut_last_comma [] = ([], [])
cut_last_comma (c ∷ s) = or_first c s (cut_last_comma s)

abbrev int_16 : Text → Result TraceError ℤ
int_16 s = elim (hex_int s) [ none ↦ raise (value_error s) | some i ↦ ok i ]

-- `process_imm`; an operand without a comma is the immediate.
unfoldable pub process_imm : Vendored → Text → Text → Text → Result TraceError Text
unfolding mem_text cut_last_comma hex_int minus
process_imm v instr_name pc operands =
    if mem_text instr_name branches
    then (do
      target ← int_16 (cut_last_comma operands).1
      here ← int_16 pc
      ok ((cut_last_comma operands).0 ++ v.sint_to_hex (minus target here)))
    else ok operands

-- The operands once an address in them is taken apart.
unfoldable pub with_address : Vendored → Option Address → TraceEntry → Text → TraceEntry
unfolding convert_operands_to_abi
with_address v none trace operands = record trace {
  operand = convert_operands_to_abi v.gpr_to_abi operands;
}
with_address v (some n) trace operands = record trace {
  imm = v.get_imm_hex_val n.imm;
  operand =
      convert_operands_to_abi v.gpr_to_abi (n.rd ++ (codes "," ++ (n.rs1 ++ (codes "," ++ n.imm))));
}

unfoldable pub expand_trace_entry : Vendored → TraceEntry → Text → Result TraceError TraceEntry
unfolding process_imm search_address with_address
expand_trace_entry v trace operands = do
  processed ← process_imm v trace.instr trace.pc operands
  let converted = v.convert_pseudo_instr trace.instr processed trace.binary
  ok (
      with_address v (search_address converted.1) (record trace { instr = converted.0 })
        converted.1)

-- The entry of a line before its operands.
unfoldable pub new_entry : InstrMatch → TraceEntry
new_entry m = record {
  instr_str = m.instr ++ (m.between ++ m.operands);
  instr = m.instr;
  pc = m.pc;
  binary = m.binary;
  operand = [];
  imm = [];
  gpr = [];
}

abbrev add_gpr : Vendored → Option (Text × Text) → TraceEntry → TraceEntry
add_gpr v none trace = trace
add_gpr v (some c) trace = record trace {
  gpr = trace.gpr ++ (v.gpr_to_abi (b'x' ∷ c.0) ++ (codes ":" ++ c.1)) ∷ [];
}

-- The entry that is written for a line that matches.
unfoldable pub entry_of : Vendored → Bool → Text → InstrMatch → Result TraceError TraceEntry
unfolding expand_trace_entry new_entry search_rd
entry_of v full_trace line m = do
  trace ← (if full_trace then expand_trace_entry v (new_entry m) m.operands else ok (new_entry m))
  ok (add_gpr v (search_rd line) trace)

-- The loop of `_process_ibex_sim_log_fd`, with the count and the entries so far; an error ends it
-- behind what has been written.
unfoldable pub process_lines :
    Vendored → Bool → List Text → ℕ → List TraceEntry → Result TraceError (ℕ × List TraceEntry)
unfolding contains match_instr entry_of
process_lines v full_trace [] instr_cnt written = ok (instr_cnt, written)
process_lines v full_trace (line ∷ lines) instr_cnt written =
    let skip = process_lines v full_trace lines instr_cnt written in
    let next : TraceEntry → Result TraceError (ℕ × List TraceEntry) =
      λ trace. process_lines v full_trace lines (instr_cnt + 1) (written ++ trace ∷ []) in
    if contains (codes "ecall") line
    then ok (instr_cnt, written)
    else elim (match_instr line) [ raise e ↦ skip | ok m ↦ entry_of v full_trace line m >>= next ]

-- `process_ibex_sim_log`, on the lines of the log if it is there.
unfoldable pub process_ibex_sim_log :
    Vendored → Bool → Option (List Text) → Result TraceError (List TraceEntry)
unfolding process_lines
process_ibex_sim_log v full_trace none = raise not_found
process_ibex_sim_log v full_trace (some lines) = do
  counted ← process_lines v full_trace lines 0 []
  (if counted.0 == 0 then raise no_instructions else ok counted.1)
