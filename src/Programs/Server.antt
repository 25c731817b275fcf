-- ===== src/Programs/Server.antt =====
-- server/main.cpp. The signal pipe, the RPC server's loop up to the signal, the clock and the
-- schedules of the recorders' threads are parameters.
use test_runner.Prelude.{ℕ, Bool, true, Option, List, [], ◌∷◌, ◌==◌, if◌then◌else◌, Bytes, codes}
use test_runner.Syscalls.{Sys, ◌>>=◌, return, call, close}
use test_runner.Prelude.Int.{ℤ}
use test_runner.Xkb.{Xkb}
use test_runner.Recorder.{Outcome, returned}
use test_runner.Recorder.Process.{Env, Action}
use test_runner.Server.{Server}
use test_runner.Server.Setup.{XkbConfig}
use test_runner.Server.Lifetime.{new_server, destroy_server}
use test_runner.Programs.{
  GivenOption, Ending, exit_success, exit_failure, stuck, Parsed, parsed, ends, with_argument,
}

-- The variables that the options set.
pub record ServerOptions : Type 0 where
  pub listen_addr : Bytes
  pub xkb_cfg : XkbConfig

-- `DEFAULT_LISTEN` and an empty XkbConfig.
abbrev pub default_options : ServerOptions
default_options = record {
  listen_addr = codes "*:4004";
  xkb_cfg = record { rules = []; model = []; layout = []; variant = []; options = [] };
}

-- The switch over one option.
unfoldable pub server_option : GivenOption → ServerOptions → Parsed ServerOptions
server_option opt o =
    if opt.ch == b'l'
    then with_argument opt.optarg (λ a. record o { listen_addr = a })
    else if opt.ch == b'L'
    then with_argument opt.optarg (λ a. record o { xkb_cfg = record o.xkb_cfg { layout = a } })
    else if opt.ch == b'V'
    then with_argument opt.optarg (λ a. record o { xkb_cfg = record o.xkb_cfg { variant = a } })
    else if opt.ch == b'M'
    then with_argument opt.optarg (λ a. record o { xkb_cfg = record o.xkb_cfg { model = a } })
    else if opt.ch == b'h'
    then ends exit_success
    else ends exit_failure

unfoldable pub parse_options : List GivenOption → ServerOptions → Parsed ServerOptions
parse_options [] o = parsed o
parse_options (opt ∷ opts) o = elim (server_option opt o) [
  | parsed p ↦ parse_options opts p
  | ends e ↦ ends e
]

-- The world of the program: whether `pipe` succeeds and the end that it gives to the signal handler,
-- what the RPC server does with the server and its
-- address until a signal arrives, and the end of the recorders that it leaves.
pub record Session : Type 1 where
  pub pipes : Bool
  pub signal_fd : ℤ
  pub serve : Bytes → Server → Sys Server
  pub env : Env
  pub now : ℕ
  pub schedules : ℕ → List Action

-- What follows the destructor.
unfoldable pub close_signal_pipe : ℤ → Outcome (Unit {0}) → Sys Ending
close_signal_pipe fd (returned u) = do closed ← call (close fd); return exit_success
close_signal_pipe fd _ = return stuck

-- The server's loop, its destructor, and the end of the signal pipe.
unfoldable pub serve_until_signal : Session → Bytes → Outcome Server → Sys Ending
serve_until_signal w listen_addr (returned s) = do
  served ← w.serve listen_addr s
  gone ← destroy_server w.env w.now w.schedules served
  close_signal_pipe w.signal_fd gone
serve_until_signal w listen_addr _ = return stuck

unfoldable pub server_session : Session → Xkb → (Bytes → Option Bytes) → ServerOptions → Sys Ending
server_session w xkb getenv o = do
  made ← new_server xkb getenv true o.xkb_cfg
  serve_until_signal w o.listen_addr made

-- main after its loop over the options.
unfoldable pub after_options :
    Session → Xkb → (Bytes → Option Bytes) → Parsed ServerOptions → Sys Ending
after_options w xkb getenv (ends e) = return e
after_options w xkb getenv (parsed o) =
    if w.pipes then server_session w xkb getenv o else return exit_failure

unfoldable pub server_main : Session → Xkb → (Bytes → Option Bytes) → List GivenOption → Sys Ending
server_main w xkb getenv opts = after_options w xkb getenv (parse_options opts default_options)
