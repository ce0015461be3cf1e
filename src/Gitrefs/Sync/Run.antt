-- ===== src/Gitrefs/Sync/Run.antt =====
-- internal/gitrefs/sync.go: one run of the git program, and the commands that read.
use forge_sync.Base.{
  ℕ, zero, suc, ◌*◌, String, ◌<>◌, Bool, true, false, Option, none, some, List, [], ◌∷◌, ◌++◌, ◌==◌,
  string_eq, nat_eq, not, ◌||◌, any, if◌then◌else◌,
}
use forge_sync.Base.Dict.{insert}
use forge_sync.Base.Int.{ℤ, pos, negsuc, int_eq, format_int}
use forge_sync.Base.Text.{
  Unicode, before_last, contains_text, fields, has_prefix, trim_prefix, scan_lines,
}
use forge_sync.Result.{Error, Result, ok, err}
use forge_sync.Effect.{Exec, pure, lift, wrapped, ◌>>=◌}
use forge_sync.Gitrefs.Policy.{Forge, github, forgejo, Refs}
use forge_sync.Gitrefs.Sync.Buffer.{LimitedBuffer, empty_buffer, write_all}

pub record Remote : Type 0 where
  pub url : String
  pub username : String
  pub token : String

abbrev pub no_remote : Remote
no_remote = record { url = ""; username = ""; token = "" }

-- What the program reads of a `url.URL`.
pub record Url : Type 0 where
  pub scheme : String
  pub host : String
  pub has_user : Bool

-- An `exec.Cmd`.
pub record Command : Type 0 where
  pub directory : String
  pub environment : List String
  pub arguments : List String

-- How a process ended: `ran`, the status of an `exec.ExitError`, or an error of starting it.
pub data Exit : Type 0 where
  ran : Exit
  exited : ℤ → Exit
  unstarted : Exit

-- A finished process: what it printed, write by write, and the error of the context, if any.
pub record Finished : Type 0 where
  pub printed : List (List ℕ)
  pub context_error : Option Error
  pub exit : Exit

-- The operating system, the git program and the network, over a state `W`. A deadline is part of what
-- `execute` and `sleep` answer: `sleep` returns `ctx.Err()` if the context ends before the timer.
pub record Host (W : Type 0) : Type 0 where
  pub parse_url : String → Option Url
  pub mkdir_temp : String → Exec W String
  pub chmod : String → ℕ → Exec W (Unit {0})
  pub remove_all : String → W → W
  pub write_file : String → String → ℕ → Exec W (Unit {0})
  pub environ : List String
  pub execute : Command → W → Finished × W
  pub sleep : ℕ → W → Option Error × W
  pub text : List ℕ → String

-- An error of `run`: a `commandError`, or any other.
pub data GitError : Type 0 where
  command_error : ℤ → String → GitError
  other_error : Error → GitError

-- The method `Error`.
unfoldable pub error_text : GitError → Error
error_text (command_error code output) = "git exited " <> format_int code <> ": " <> output
error_text (other_error e) = e

-- The method `String` of limitedBuffer.
unfoldable pub buffer_text : (List ℕ → String) → LimitedBuffer → String
buffer_text text w = if w.truncated then text w.buffer <> "\n[output truncated]" else text w.buffer

-- `filepath.Dir` of a clean path
unfoldable pub dir_of : String → String
dir_of path = elim (before_last b'/' path) [
  | none ↦ "."
  | some dir ↦ if dir == "" then "/" else dir
]

abbrev pub askpass_body : String
askpass_body =
    "#!/bin/sh\ncase \"$1\" in\n  *Username*) printf '%s\\n' \"$FORGE_SYNC_GIT_USERNAME\" ;;\n"
    <> "  *) printf '%s\\n' \"$FORGE_SYNC_GIT_TOKEN\" ;;\nesac\n"

abbrev pub forge_name : Forge → String
forge_name github = "github"
forge_name forgejo = "forgejo"

abbrev markers : List String
markers =
    "error: 502" ∷ "error: 503" ∷ "error: 504" ∷ "error: 429" ∷ "Connection reset by peer"
    ∷ "connection refused" ∷ "timed out" ∷ "Could not resolve host" ∷ "Failed to connect" ∷ []

unfoldable pub transient_git_failure : Error → Bool
transient_git_failure message = any (λ marker. contains_text message marker) markers

module _ {W : Type 0} (host : Host W) (unicode : Unicode) where
  exit_error : Exit → String → Option GitError
  exit_error ran output = none
  exit_error (exited code) output = some (command_error code (unicode.trim_space output))
  exit_error unstarted output = some (command_error (negsuc 0) (unicode.trim_space output))

  -- `command.Run()` and what follows it.
  unfoldable pub executed : Command → W → (String × Option GitError) × W
  unfolding exit_error
  executed command w =
      let (finished, w') = host.execute command w in
      let output = buffer_text host.text (write_all empty_buffer finished.printed) in
      (
        (
          output,
          elim finished.context_error [
            | some e ↦ some (other_error e)
            | none ↦ exit_error finished.exit output
          ],
        ),
        w',
      )

  abbrev base_environment : List String
  base_environment = host.environ ++ "GIT_CONFIG_NOSYSTEM=1" ∷ "GIT_TERMINAL_PROMPT=0" ∷ []

  abbrev user_of : Remote → String
  user_of remote = if remote.username == "" then "oauth2" else remote.username

  abbrev pub plain : String → List String → Command
  plain directory arguments = record {
    directory = directory;
    environment = base_environment;
    arguments = arguments;
  }

  -- With a script that answers git's questions for a user name and a password.
  abbrev pub with_askpass : Remote → String → Command → Command
  with_askpass remote askpass command = record command {
    environment =
        command.environment
        ++ ("GIT_ASKPASS=" <> askpass)
          ∷ ("FORGE_SYNC_GIT_USERNAME=" <> user_of remote)
          ∷ ("FORGE_SYNC_GIT_TOKEN=" <> remote.token)
          ∷ [];
  }

  abbrev pub executed_after : Command → Result (Unit {0}) → W → (String × Option GitError) × W
  executed_after command (ok _) w = executed command w
  executed_after command (err e) w = (("", some (other_error e)), w)

  unfoldable pub run : String → Remote → List String → W → (String × Option GitError) × W
  run directory remote arguments w =
      if remote.token == ""
      then executed (plain directory arguments) w
      else (let askpass = dir_of directory <> "/askpass.sh" in
          let (written, w') = host.write_file askpass askpass_body 448 w in
          executed_after (with_askpass remote askpass (plain directory arguments)) written w')

  -- `output, err := run(...)`, where only the text of the error is read.
  unfoldable pub git : String → Remote → List String → Exec W String
  git directory remote arguments w =
      let ((output, failure), w') = run directory remote arguments w in
      (elim failure [ none ↦ ok output | some e ↦ err (error_text e) ], w')

  unfoldable pub validate : Remote → Result (Unit {0})
  validate remote =
      if remote.url == "" then err "URL is empty" else elim (host.parse_url remote.url) [
        | none ↦ err "URL is invalid"
        | some parsed ↦
            if parsed.has_user
            then err "credentials must not be embedded in URL"
            else if parsed.scheme == "http" || parsed.scheme == "https"
            then if parsed.host == ""
              then err "HTTP URL has no host"
              else if remote.token == ""
              then err "HTTP remote token is empty"
              else ok tt
            else ok tt
      ]

  unfoldable pub fetch : String → Forge → Remote → Exec W (Unit {0})
  fetch git_dir forge remote =
      let prefix = "refs/forge-sync/" <> forge_name forge in
      do
        _ ← wrapped ("fetch " <> forge_name forge <> " refs") (
            git git_dir remote (
              "--git-dir"
              ∷ git_dir
              ∷ "fetch"
              ∷ "--no-tags"
              ∷ "--prune"
              ∷ remote.url
              ∷ ("+refs/heads/*:" <> prefix <> "/heads/*")
              ∷ ("+refs/tags/*:" <> prefix <> "/tags/*")
              ∷ []))
        pure tt

  module _ (git_dir : String) (forge : Forge) (remote : Remote) where
    -- The timer before any round but the first.
    unfoldable pub pause : ℕ → W → Option Error × W
    pause attempt w = if attempt == 0 then (none, w) else host.sleep (attempt * 5000000000) w

    abbrev pub after_pause : (W → Result (Unit {0}) × W) → Option Error → W → Result (Unit {0}) × W
    after_pause round none w = round w
    after_pause round (some e) w = (err e, w)

    abbrev pub after_fetch :
        (Error → W → Result (Unit {0}) × W) → Result (Unit {0}) → W → Result (Unit {0}) × W
    after_fetch again (ok _) w = (ok tt, w)
    after_fetch again (err e) w = if transient_git_failure e then again e w else (err e, w)

    -- The rounds of the loop that are left, the next being round `attempt`. `last` is `lastErr`.
    unfoldable pub fetch_from : ℕ → ℕ → Error → Exec W (Unit {0})
    fetch_from zero attempt last w = (err last, w)
    fetch_from (suc left) attempt last w =
        let again = fetch_from left (suc attempt) in
        let (waited, w₁) = pause attempt w in
        after_pause
          (λ w'. let (fetched, w₂) = fetch git_dir forge remote w' in after_fetch again fetched w₂)
          waited w₁

    unfoldable pub fetch_with_retry : Exec W (Unit {0})
    fetch_with_retry = fetch_from 3 0 ""

  -- The name of a ref on its forge, from its name in the local repository.
  unfoldable pub forge_ref : String → Option String
  forge_ref name =
      if has_prefix name "heads/"
      then some ("refs/heads/" <> trim_prefix name "heads/")
      else if has_prefix name "tags/"
      then some ("refs/tags/" <> trim_prefix name "tags/")
      else none

  -- One line: the map with its ref.
  unfoldable pub read_ref : String → String → Refs → List String → Result Refs
  read_ref prefix line result (name ∷ (sha ∷ [])) =
      if not (has_prefix name prefix)
      then err ("invalid local ref line " <> line)
      else elim (forge_ref (trim_prefix name prefix)) [
        | none ↦ err ("unexpected local ref " <> name)
        | some ref ↦ ok (insert ref sha result)
      ]
  read_ref prefix line result _ = err ("invalid local ref line " <> line)

  -- The loop over the lines.
  unfoldable pub read_refs : String → List String → Bool → Refs → Result Refs
  read_refs prefix [] stopped result =
      if stopped then err "bufio.Scanner: token too long" else ok result
  read_refs prefix (line ∷ lines) stopped result =
      elim (read_ref prefix line result (fields unicode line)) [
        | err e ↦ err e
        | ok result' ↦ read_refs prefix lines stopped result'
      ]

  unfoldable pub local_refs : String → Forge → Exec W Refs
  local_refs git_dir forge =
      let prefix = "refs/forge-sync/" <> forge_name forge <> "/" in
      do
        output ← git git_dir no_remote (
            "--git-dir" ∷ git_dir ∷ "for-each-ref" ∷ "--format=%(refname) %(objectname)" ∷ prefix
            ∷ [])
        let (lines, stopped) = scan_lines output in lift (read_refs prefix lines stopped [])

  -- The closure `ancestry`, asked in the state `w`.
  unfoldable pub ancestry : String → W → String → String → Result Bool
  ancestry git_dir w ancestor descendant =
      let (_, failure) =
        (run git_dir no_remote
          ("--git-dir" ∷ git_dir ∷ "merge-base" ∷ "--is-ancestor" ∷ ancestor ∷ descendant ∷ [])
          w).0 in
      elim failure [ none ↦ ok true | some e ↦ answer e ]
    where
      answer : GitError → Result Bool
      answer (command_error code output) =
          if code == pos 1 then ok false else err (error_text (command_error code output))
      answer (other_error e) = err e
