-- ===== src/Command.antt =====
-- The first half of `main` in cmd/main.go, with `New` and `Start` of internal/app/app.go: the flag, the
-- configuration, the log level, and the start of the CU-CP up to its wait for the AMF. The second half
-- is Shutdown.antt. An error that `main` prints ends the program with code 1, and so does `Fatal`.
pub mod Begin
use central_unit.Base.{Option, none, some, Run, done, ◌>>=◌, [], ◌∷◌}
use central_unit.Base.Int.{ℤ}
use central_unit.Bytes.{Bytes}
use central_unit.Config.{Config, Disk, new_app}
use central_unit.Logger.{parse_log_level}
use central_unit.Transport.{Network}
use central_unit.Wire.{Env}
use central_unit.Start.{Outset, init_context}
use central_unit.F1Server.{Listening, init_f1ap_server}
use central_unit.Cu.{CuCp}
use central_unit.Shutdown.{Process, exit, launched}

abbrev pub default_path : Bytes
default_path =
    b'c' ∷ b'o' ∷ b'n' ∷ b'f' ∷ b'i' ∷ b'g' ∷ b'/' ∷ b'c' ∷ b'o' ∷ b'n' ∷ b'f' ∷ b'i' ∷ b'g' ∷ b'.'
    ∷ b'y' ∷ b'm' ∷ b'l' ∷ []

-- The value of the flag "config", where the command line has one.
abbrev pub config_path : Option Bytes → Bytes
config_path none = default_path
config_path (some path) = path

-- zerolog's levels.
pub record LevelLib (L : Type 0) : Type 0 where
  pub parse_level : Bytes → Option L
  pub info_level : L

-- The global log level, and how far the start came: none where `New` returned an error.
pub record Begun (L : Type 0) : Type 0 where
  pub level : L
  pub outset : Option Outset

module _ {L : Type 0} (lib : LevelLib L) where
  -- `New`: the configuration and the log level after it.
  unfoldable pub new_with_level : Disk → Bytes → L → Option (Config × L)
  unfolding new_app parse_log_level
  new_with_level disk path current = elim (new_app disk path) [
    | none ↦ none
    | some cfg ↦
        some (cfg, parse_log_level lib.parse_level lib.info_level current cfg.logging.level)
  ]

  -- `Start` returns no error.
  unfoldable pub begin : Disk → (ℤ → Bytes) → Network → Env → Option Bytes → L → Run (Begun L)
  unfolding new_with_level
  begin disk decimal net env flag current = elim (new_with_level disk (config_path flag) current) [
    | none ↦ done (record { level = current; outset = none })
    | some (cfg, level) ↦ init_context decimal net env cfg >>= λ outset.
        done (record { level = level; outset = some outset })
  ]

-- What follows `<-cuCtx.IsReadyNgap`: the F1AP server, without which `Fatal` ends the program.
unfoldable pub serve_f1 : Listening → CuCp → Process
unfolding init_f1ap_server
serve_f1 lib cu = elim (init_f1ap_server lib cu) [
  | none ↦ record launched { over = some (exit 1) }
  | some _ ↦ launched
]
