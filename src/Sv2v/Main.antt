-- ===== src/Sv2v/Main.antt =====
-- `main` of util/sv2v_in_place.py, behind the parsing of its arguments.
pub mod Effect
use emucpu.Prelude.{ℕ, if◌then◌else◌, List, [], ◌∷◌, ◌++◌, Option, none, some}
use emucpu.Prelude.Text.{Text}
use emucpu.Prelude.Dict.{lookup, insert}
use emucpu.Sv2v.Paths.{Search, read_file_list, sv_paths, svh_paths, pkg_paths}
use emucpu.Sv2v.Transform.{
  Store, World, Fault, runtime_error, os_error, Outcome, then_run, Options, transform,
}

-- `args`
pub record Args : Type 0 where
  pub file_list : Text
  pub defines : List Text
  pub defines_if : List (Search × Text)
  pub incdirs : List Text
  pub incdir_list : Option Text
  pub sv2v : Text

-- What `main` returns, or the OSError that it does not catch.
pub data Exit : Type 0 where
  returned : ℕ → Exit
  uncaught : Text → Exit

-- The last loop: `with open(path, 'w'): pass`.
unfoldable pub splat : World → List Text → Store → Outcome
unfolding then_run
splat w [] s = (s, none)
splat w (path ∷ paths) s =
    then_run (if w.writable path then (insert path [] s, none) else (s, some (os_error path)))
      (λ t. splat w paths t)

-- `exit(main())`: an exception that nobody catches ends the process with 1.
abbrev pub exit_code : Exit → ℕ
exit_code (returned n) = n
exit_code (uncaught path) = 1

unfoldable pub exit_of : Outcome → Store × Exit
exit_of (s, none) = (s, returned 0)
exit_of (s, some (runtime_error path code cmd)) = (s, returned 1)
exit_of (s, some (os_error path)) = (s, uncaught path)

abbrev pub options_of : Args → List Text → List Text → Options
unfolding pkg_paths
options_of args paths incdirs = record {
  sv2v = args.sv2v;
  defines = args.defines;
  defines_if = args.defines_if;
  incdirs = incdirs;
  pkg_paths = pkg_paths paths;
}

-- The part of `main` that follows the two lists; only the transformation's RuntimeError is caught,
-- and emptying the headers raises none.
unfoldable pub work_on : World → Args → List Text → List Text → Store → Store × Exit
unfolding splat exit_of sv_paths svh_paths transform then_run
work_on w args paths incdirs s = exit_of (
    then_run (transform w (options_of args paths incdirs) (sv_paths paths) s)
      (λ t. splat w (svh_paths paths) t))

-- `args.incdirs += read_file_list(args.incdir_list)`, `none` where that fails.
unfoldable pub all_incdirs : Args → Store → Option (List Text)
unfolding read_file_list
all_incdirs args s = elim args.incdir_list [
  | none ↦ some args.incdirs
  | some path ↦ elim (lookup path s) [
    | none ↦ none
    | some content ↦ some (args.incdirs ++ read_file_list content)
  ]
]

unfoldable pub main : World → Args → Store → Store × Exit
unfolding read_file_list all_incdirs work_on
main w args s = elim (lookup args.file_list s) [
  | none ↦ (s, returned 1)
  | some content ↦ elim (all_incdirs args s) [
    | none ↦ (s, returned 1)
    | some incdirs ↦ work_on w args (read_file_list content) incdirs s
  ]
]
