-- ===== src/OutputLogger.antt =====
-- output_logger.go and global_state.go: what the SDK writes. The logger is a global, nil before the
-- first initialization; its callback is outside, and what it is called with is an effect, as is
-- what is printed.
use Prim.Native.String.{String, ◌++◌}
use mathlib.Core.List.{List, [], ◌∷◌}
use mathlib.Core.Bool.{Bool, not, ◌&&◌}
use mathlib.Core.Option.{Option, none, some}
use text.Mathlib.Text.{◌==◌}
use statsig_go_sdk.Prelude.{if◌then◌else◌}

-- `OutputLoggerOptions`; of the callback, whether there is one.
pub record OutputLoggerOptions : Type 0 where
  pub has_log_callback : Bool
  pub enable_debug : Bool
  pub disable_init_diagnostics : Bool
  pub disable_sync_diagnostics : Bool

-- `GlobalState.logger`
abbrev pub GlobalLogger : Type 0
GlobalLogger = Option OutputLoggerOptions

-- `InitializeGlobalOutputLogger`
abbrev pub initialize_global_output_logger : OutputLoggerOptions → GlobalLogger
initialize_global_output_logger options = some options

pub data Output : Type 0 where
  -- a call of the callback, with its message and the text of its error
  called : String → Option String → Output
  printed : String → Output

-- What is printed for a message and an error.
abbrev pub formatted : String → Option String → String
formatted msg none = msg
formatted msg (some err) = if msg == "" then err else msg ++ ("\n" ++ err)

abbrev pub print : String → List Output
print text = if text == "" then [] else printed text ∷ []

-- `Log`
unfoldable pub log : GlobalLogger → String → Option String → List Output
log none msg err = print (formatted msg err)
log (some options) msg err =
    if options.has_log_callback then called msg err ∷ [] else print (formatted msg err)

-- The line of a step, at a time in RFC 3339.
abbrev pub step_line : String → String → String → String
step_line timestamp process msg =
    "[" ++ (timestamp ++ ("][Statsig] " ++ (process ++ (": " ++ (msg ++ "\n")))))

-- `LogStep`
unfoldable pub log_step : String → GlobalLogger → String → String → List Output
unfolding log
log_step timestamp none process msg = []
log_step timestamp (some options) process msg =
    if not options.enable_debug
    then []
    else if options.disable_init_diagnostics && process == "Initialize"
    then []
    else if options.disable_sync_diagnostics && process == "Sync"
    then []
    else log (some options) (step_line timestamp process msg) none

-- What `LogError` may be given: a string, an error, or a value that is printed as it is.
pub data Thrown : Type 0 where
  message : String → Thrown
  error : String → Thrown
  other : String → Thrown

-- `LogError`
unfoldable pub log_error : GlobalLogger → Thrown → List Output
unfolding log
log_error g (message text) = log g text none
log_error g (error text) = log g "" (some text)
log_error g (other text) = printed text ∷ []
