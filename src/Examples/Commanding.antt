-- ===== src/Examples/Commanding.antt =====
-- A start from the command line, and a connection that is closed.
use central_unit.Base.{ℕ, ◌≡◌, ◌≤◌, refl, ◌⊎◌, Bool, true, false, none, some, done, if◌then◌else◌}
use central_unit.Bytes.{equal}
use central_unit.Config.{Config, info, new_app, load, apply_defaults, validate}
use central_unit.Config.Validate.{IsComplete}
use central_unit.Logger.{to_lower, parse_log_level}
use central_unit.Transport.{connect}
use central_unit.Transport.ReadLoop.{started, stopped, read_error, after_read, go_on}
use central_unit.Transport.Close.{
  Closing, CloseStep, CloseRun, more, none_made, read_one, other_loop, wait_over, in_wait, over,
  read_fails, close-returns,
}
use central_unit.Start.{waiting}
use central_unit.Start.Panics.{amf_conn}
use central_unit.Start.Waiting.{IsWaiting}
use central_unit.Command.{config_path, LevelLib, new_with_level, begin}
use central_unit.Command.Begin.{level_or, begin-waits}
use central_unit.Examples.Context.{env}
use central_unit.Examples.Startup.{disk, net, decimal}
use central_unit.Examples.Running.{cu, n2, starts}

-- Level 1 is "info".
abbrev levels : LevelLib ℕ
levels = record { parse_level = λ name. if equal name info then some 1 else none; info_level = 1 }

begun :
    begin levels disk decimal net env none 0
    ≡ done (record { level = 1; outset = some (waiting cu n2) })
unfolding begin new_with_level new_app load apply_defaults validate parse_log_level equal
begun = rw starts refl

begin-waits_example :
    (cfg : Config) × (new_app disk (config_path none) ≡ some cfg)
    × IsComplete cfg
    × (1 ≡ level_or 1 (levels.parse_level (to_lower cfg.logging.level)))
    × IsWaiting cfg cu
    × (connect net (amf_conn decimal cfg) ≡ (n2, none))
begin-waits_example = begin-waits levels disk decimal net env none 0 1 cu n2 begun

-- The loop was about to test its context when the socket was closed.
abbrev closing : Closing
closing = record { client = started; socket = false; closer = in_wait }

abbrev closed : Closing
closed = record closing { client = record started { place = stopped }; closer = over true }

closes : CloseRun 3 closing closed
unfolding after_read read_fails
closes =
    more (other_loop (λ h. cc) (go_on refl refl))
      (more (read_one read_error refl (λ h. refl)) (more (wait_over refl refl) none_made))

close-returns_example :
    (3 ≤ 4) × (((b : Bool) × (over true ≡ over b)) ⊎ ((e : Closing) × CloseStep closed e))
close-returns_example = close-returns closes refl refl
