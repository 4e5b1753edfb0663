-- ===== src/Command/Begin.antt =====
-- The program from its command line to its wait for the AMF.
use central_unit.Base.{
  ◌≡◌, ◌≢◌, refl, sym, ap, ◌∙◌, [], ◌∷◌, Option, none, some, Option-cases, Run, >>=-eq-done, done,
  inl, inr, arith,
}
use central_unit.Base.Int.{ℤ}
use central_unit.Bytes.{Bytes}
use central_unit.Wire.{Env}
use central_unit.Config.{Config, Disk, new_app}
use central_unit.Config.Validate.{IsComplete}
use central_unit.Config.Load.{new_app_iff}
use central_unit.Logger.{to_lower, parse_log_level}
use central_unit.Transport.{SctpConn, Network, connect}
use central_unit.Cu.{CuCp}
use central_unit.Start.{Outset, waiting, init_context}
use central_unit.Start.Panics.{amf_conn}
use central_unit.Start.Waiting.{IsWaiting, init_context-waits}
use central_unit.Command.{config_path, LevelLib, Begun, new_with_level, begin}

-- The default where a name is no level.
abbrev pub level_or : {L : Type 0} → L → Option L → L
level_or info_level none = info_level
level_or info_level (some l) = l

pub parse_log_level-given :
    {L : Type 0} (lib : LevelLib L) (current : L) (level : Bytes)
    → level ≢ []
    → parse_log_level lib.parse_level lib.info_level current level
      ≡ level_or lib.info_level (lib.parse_level (to_lower level))
unfolding parse_log_level
parse_log_level-given lib current [] h = absurd (h refl)
parse_log_level-given lib current (c ∷ level) h = ground arith

waiting-inv :
    {L : Type 0} (cfg : Config) (l level : L) (cu : CuCp) (conn : SctpConn) (o : Outset)
    → ◌≡◌ {A = Run (Begun L)}
        (done (record { level = l; outset = some o }))
        (done (record { level = level; outset = some (waiting cu conn) }))
    → (l ≡ level) × (o ≡ waiting cu conn)
waiting-inv cfg l level cu conn o e = ground arith

-- Where the program comes to its wait for the AMF, the file that the flag names, or the default one,
-- has a complete configuration, the global log level is the configured one or the default level
-- where its name is unknown, whatever it was before, the AMF of the configuration is connected, and
-- the context has sent one message, to the AMF, and has no UE, no DU and no signal.
pub begin-waits :
    {L : Type 0} (lib : LevelLib L) (disk : Disk) (decimal : ℤ → Bytes) (net : Network) (env : Env)
    (flag : Option Bytes) (current level : L) (cu : CuCp) (conn : SctpConn)
    → begin lib disk decimal net env flag current
      ≡ done (record { level = level; outset = some (waiting cu conn) })
    → (cfg : Config) × (new_app disk (config_path flag) ≡ some cfg)
      × IsComplete cfg
      × (level ≡ level_or lib.info_level (lib.parse_level (to_lower cfg.logging.level)))
      × IsWaiting cfg cu
      × (connect net (amf_conn decimal cfg) ≡ (conn, none))
unfolding begin new_with_level
begin-waits lib disk decimal net env flag current level cu conn e =
    elim (Option-cases (new_app disk (config_path flag))) [
      | inl n ↦ absurd (ground arith)
      | inr (cfg, n) ↦
          let (raw, decoded, r, d, same, complete) =
            (new_app_iff disk (config_path flag) cfg).0 n in
          let l = parse_log_level lib.parse_level lib.info_level current cfg.logging.level in
          let (o, started, h) =
            >>=-eq-done (init_context decimal net env cfg)
              (λ outset. done (record { level = l; outset = some outset })) (rw (begin, n) at e) in
          let (at_level, at_wait) = waiting-inv cfg l level cu conn o h in
          let (w, linked) =
            init_context-waits decimal net env cfg cu conn (started ∙ ap done at_wait) in
          (
            cfg,
            n,
            complete,
            sym at_level ∙ parse_log_level-given lib current cfg.logging.level complete.level,
            w,
            linked,
          )
    ]
