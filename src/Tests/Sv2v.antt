-- ===== src/Tests/Sv2v.antt =====
-- Translating a package, a module and a header that they include.
use emucpu.Prelude.{
  ◌⊎◌, true, List, [], ◌∷◌, ◌++◌, none, some, Option, ◌≡◌, refl, sym, ap, if◌then◌else◌,
}
use emucpu.Prelude.Int.{ℤ, pos}
use emucpu.Prelude.Text.{Text, codes, join, text_eq, strip}
use emucpu.Prelude.Dict.{lookup, mem_text}
use emucpu.Sv2v.Paths.{read_file_list, sv_paths, svh_paths}
use emucpu.Sv2v.Transform.{Store, World, Options, is_temp, transform}
use emucpu.Sv2v.Transform.Files.{Agree}
use emucpu.Sv2v.Transform.Outputs.{IsBlind, first_fault, translated, transform-first_fault}
use emucpu.Sv2v.Main.{Args, returned, uncaught, options_of, all_incdirs, main}
use emucpu.Sv2v.Main.Effect.{main-exit_1, main-exit_0}

abbrev text_of : Option Text → Text
text_of none = codes "?"
text_of (some s) = s

-- A tool that prints the header and its arguments, with an exit code.
abbrev print_all : ℤ → List Text → Store → Option (ℤ × Text)
print_all code cmd s = some (code, text_of (lookup (codes "i.svh") s) ++ join (codes " ") cmd)

abbrev world : ℤ → World
world code = record { writable = λ p. true; tmpdir = codes "/tmp/x"; run = print_all code }

abbrev tree : Store
tree =
    (codes "list", codes "i.svh\na.sv\np_pkg.sv\n")
    ∷ (codes "i.svh", codes "`define X")
    ∷ (codes "a.sv", codes "module")
    ∷ (codes "p_pkg.sv", codes "package")
    ∷ []

abbrev args : Args
args = record {
  file_list = codes "list";
  defines = codes "SYNTHESIS" ∷ [];
  defines_if = [];
  incdirs = codes "rtl" ∷ [];
  incdir_list = none;
  sv2v = codes "sv2v";
}

world-IsBlind : (code : ℤ) → IsBlind (world code) tree
unfolding is_temp
world-IsBlind code cmd t agree =
    ap (λ o. some (code, text_of o ++ join (codes " ") cmd)) (sym (agree (codes "i.svh") refl))

main-exit_1_example :
    ((path : Text) × ((main (world (pos 3)) args tree).1 ≡ uncaught path))
    ⊎ Agree (world (pos 3)) tree (main (world (pos 3)) args tree).0
unfolding main lookup text_eq strip
main-exit_1_example = main-exit_1 (world (pos 3)) args tree refl

abbrev paths : List Text
paths = codes "i.svh" ∷ codes "a.sv" ∷ codes "p_pkg.sv" ∷ []

abbrev options : Options
options = options_of args paths (codes "rtl" ∷ [])

transform-first_fault_example :
    (transform (world (pos 0)) options (codes "a.sv" ∷ codes "p_pkg.sv" ∷ []) tree).1
    ≡ first_fault (world (pos 0)) options tree (codes "a.sv" ∷ codes "p_pkg.sv" ∷ [])
unfolding is_temp
transform-first_fault_example =
    transform-first_fault (world (pos 0)) options tree (λ p. refl) (world-IsBlind (pos 0))
      (codes "a.sv" ∷ codes "p_pkg.sv" ∷ []) (refl, (refl, tt))

main-exit_0_example :
    ((main (world (pos 0)) args tree).1 ≡ returned 0)
    × (lookup (codes "a.sv") (main (world (pos 0)) args tree).0 ≡ (
        if mem_text (codes "a.sv") (svh_paths paths)
        then some []
        else if mem_text (codes "a.sv") (sv_paths paths)
        then some (translated (world (pos 0)) options tree (codes "a.sv"))
        else lookup (codes "a.sv") tree))
unfolding lookup text_eq strip read_file_list is_temp all_incdirs sv_paths
main-exit_0_example =
    main-exit_0 (world (pos 0)) args tree (codes "i.svh\na.sv\np_pkg.sv\n") (codes "rtl" ∷ [])
      (codes "a.sv") (λ p. refl) (world-IsBlind (pos 0)) refl refl (refl, (refl, tt)) refl refl
