-- ===== src/Tests/Trace.antt =====
-- A trace of two instructions before an `ecall`, and one behind it.
use emucpu.Prelude.{true, map_ok, List, [], ◌∷◌, some, ok, ◌≡◌}
use emucpu.Prelude.Text.{Text, codes, contains, show_int}
use emucpu.LogCheck.Trace.{Vendored, match_instr, entry_of, process_ibex_sim_log}
use emucpu.LogCheck.Trace.Entries.{before_ecall, instructions, process_ibex_sim_log-entries}

-- Functions that show what they were called with.
abbrev vendored : Vendored
vendored = record {
  gpr_to_abi = λ s. codes "na";
  sint_to_hex = show_int;
  convert_pseudo_instr = λ instr operands binary. (instr, operands);
  get_imm_hex_val = λ s. s;
}

abbrev log : List Text
log =
    codes "Time Cycle PC Insn"
    ∷ codes "  10 3 80000080 00a58463 beq\tx11,80000088"
    ∷ codes "  12 4 80000088 0085a503 lw\tx10,8(x11)  x10=0x0000002a"
    ∷ codes "  14 5 8000008c 00000073 ecall"
    ∷ codes "  16 6 80000090 00000013 addi\tx0,x0,0"
    ∷ []

process_ibex_sim_log-entries_example :
    process_ibex_sim_log vendored true (some log)
    ≡ ok (
        record {
          instr_str = codes "beq\tx11,80000088";
          instr = codes "beq";
          pc = codes "80000080";
          binary = codes "00a58463";
          operand = codes "x11,8";
          imm = [];
          gpr = [];
        }
        ∷ record {
          instr_str = codes "lw\tx10,8(x11)";
          instr = codes "lw";
          pc = codes "80000088";
          binary = codes "0085a503";
          operand = codes "x10,x11,8";
          imm = codes "8";
          gpr = codes "na:0000002a" ∷ [];
        }
        ∷ [])
unfolding before_ecall instructions match_instr contains entry_of show_int map_ok
process_ibex_sim_log-entries_example = process_ibex_sim_log-entries vendored true log
