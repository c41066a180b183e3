-- ===== src/LogCheck/Operands.antt =====
-- `convert_operands_to_abi` of ibex_log_to_trace_csv.py. `gpr_to_abi` belongs to vendored code and
-- is a parameter; it returns "na" for what is not a register.
pub mod Split
use emucpu.Prelude.{Bool, if◌then◌else◌, List, map}
use emucpu.Prelude.Text.{Text, codes, join, text_eq}
use emucpu.Requirements.Check.{split_on}

-- The loop's body, on one operand.
unfoldable pub convert_operand : (Text → Text) → Text → Text
unfolding text_eq
convert_operand gpr_to_abi op = if text_eq (gpr_to_abi op) (codes "na") then op else gpr_to_abi op

unfoldable pub convert_operands_to_abi : (Text → Text) → Text → Text
unfolding convert_operand split_on join
convert_operands_to_abi gpr_to_abi operand_str =
    join (codes ",") (map (convert_operand gpr_to_abi) (split_on b',' operand_str))
