-- ===== src/ScriptsLib/RunOne.antt =====
-- `run_one` of scripts_lib.py: a command is run on the files as they are.
pub mod Printed
use emucpu.Prelude.{
  Bool, true, false, if◌then◌else◌, List, [], ◌∷◌, ◌++◌, map, Option, none, some, Result, ok, raise,
}
use emucpu.Prelude.Int.{ℤ, pos}
use emucpu.Prelude.Text.{Text, codes, text_eq, join}
use emucpu.Prelude.Dict.{Dict, lookup, insert}
use emucpu.Requirements.Check.{split_on}
use emucpu.Stdlib.Shlex.{quote}

-- `redirect_stdstreams`: none, a text, a path, or an open file of that name, for text or for bytes.
pub data Redirect : Type 0 where
  no_redirect : Redirect
  name : Text → Redirect
  path : Text → Redirect
  stream : Text → Redirect
  binary_stream : Text → Redirect

-- What `subprocess.run` comes to: an exit code, an OSError, or TimeoutExpired.
pub data Ran : Type 0 where
  exited : ℤ → Ran
  os_failed : Ran
  timed_out : Ran

-- RuntimeError for a redirection that is invalid, OSError where its file cannot be opened, and
-- TimeoutExpired.
pub data RunError : Type 0 where
  invalid_redirect : Text → RunError
  not_opened : Text → RunError
  timeout_expired : RunError

-- Which paths may be written, and what a command does to the files; where the output goes is
-- known to it.
pub record Host : Type 0 where
  pub writable : Text → Bool
  pub run : List Text → Redirect → Dict Text → Dict Text × Ran

-- The files, the lines on standard error, and what is returned or raised.
pub record RunResult : Type 0 where
  pub files : Dict Text
  pub printed : List Text
  pub returned : Result RunError ℤ

-- `cmd_str` before the redirection is added
unfoldable pub command_text : List Text → Text
unfolding join quote
command_text cmd = join (codes " ") (map quote cmd)

-- The last component of a path.
unfoldable pub last_of : List Text → Text
last_of [] = []
last_of (c ∷ []) = c
last_of (c ∷ d ∷ comps) = last_of (d ∷ comps)

unfoldable pub path_name : Text → Text
unfolding last_of split_on
path_name p = last_of (split_on b'/' p)

-- `redir`, with ` 2>&1` and the space before it
unfoldable pub redirection : Redirect → Text
unfolding quote path_name
redirection no_redirect = []
redirection (name s) = codes " >" ++ (quote s ++ codes " 2>&1")
redirection (path p) = codes " >>" ++ (quote (path_name p) ++ codes " 2>&1")
redirection (binary_stream s) = codes " >>" ++ (quote s ++ codes " 2>&1")
redirection (stream s) = codes " >>" ++ (quote s ++ codes " 2>&1")

unfoldable pub print_line : List Text → Redirect → Text
unfolding command_text redirection
print_line cmd redirect = codes "+ " ++ (command_text cmd ++ redirection redirect)

abbrev pub or_empty : Option Text → Text
or_empty none = []
or_empty (some content) = content

-- `print('+ ' + cmd_str, file=stdstream_dest)`, which only a text file takes.
unfoldable pub log_line : Redirect → Text → Dict Text → Dict Text
log_line (stream s) line files = insert s (or_empty (lookup s files) ++ line ++ codes "\n") files
log_line _ line files = files

-- The `except` clauses.
unfoldable pub return_code : Bool → Ran → Result RunError ℤ
return_code reraise (exited code) = ok code
return_code reraise os_failed = ok (pos 1)
return_code reraise timed_out = if reraise then raise timeout_expired else ok (pos 1)

-- The part behind the choice of a destination.
unfoldable pub run_opened : Host → Bool → List Text → Redirect → Bool → Dict Text → RunResult
unfolding print_line log_line return_code
run_opened w verbose cmd redirect reraise opened =
    let line = print_line cmd redirect in
    let logged = if verbose then log_line redirect line opened else opened in
    let (files, ran) = w.run cmd redirect logged in
    record {
      files = files;
      printed = if verbose then line ∷ [] else [];
      returned = return_code reraise ran;
    }

unfoldable pub run_one : Host → Bool → List Text → Redirect → Bool → Dict Text → RunResult
unfolding run_opened
run_one w verbose cmd no_redirect reraise s = run_opened w verbose cmd no_redirect reraise s
run_one w verbose cmd (stream n) reraise s = run_opened w verbose cmd (stream n) reraise s
run_one w verbose cmd (binary_stream n) reraise s =
    run_opened w verbose cmd (binary_stream n) reraise s
run_one w verbose cmd (name n) reraise s =
    if text_eq n (codes "/dev/null")
    then run_opened w verbose cmd (name n) reraise s
    else record { files = s; printed = []; returned = raise (invalid_redirect n) }
run_one w verbose cmd (path p) reraise s =
    if w.writable p
    then run_opened w verbose cmd (path p) reraise (insert p [] s)
    else record { files = s; printed = []; returned = raise (not_opened p) }
