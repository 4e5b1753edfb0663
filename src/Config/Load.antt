-- ===== src/Config/Load.antt =====
-- The configuration with which the program starts.
use central_unit.Base.{
  zero, suc, ◌≡◌, ◌≢◌, ◌∙◌, ap, refl, ◌↔◌, [], ◌∷◌, none, some, if◌then◌else◌, arith, Option-cases,
  inl, inr,
}
use central_unit.Base.Int.{ℤ, pos, negsuc, not_positive, IsPositive, not_positive_iff}
use central_unit.Bytes.{Bytes, equal}
use central_unit.Config.{
  Config, Disk, info, json, or_default, apply_defaults, load, validate, new_app,
}
use central_unit.Config.Validate.{IsComplete, validate_iff}

-- What the defaults leave behind.
pub record IsDefaulted (c : Config) : Type 0 where
  pub level : c.logging.level ≢ []
  pub format : c.logging.format ≢ []
  pub shards : IsPositive c.ue_store_shards

or_default-given : (s d : Bytes) → d ≢ [] → or_default s d ≢ []
unfolding equal
or_default-given [] d h = h
or_default-given (x ∷ s) d h = ground arith

or_default-keeps : (s d : Bytes) → s ≢ [] → or_default s d ≡ s
unfolding equal
or_default-keeps [] d h = absurd (h refl)
or_default-keeps (x ∷ s) d h = refl

shards-IsPositive : (n : ℤ) → IsPositive (if not_positive n then pos 64 else n)
shards-IsPositive (pos zero) = omega arith
shards-IsPositive (pos (suc n)) = omega arith
shards-IsPositive (negsuc n) = omega arith

apply_defaults-IsDefaulted : (c : Config) → IsDefaulted (apply_defaults c)
unfolding apply_defaults
apply_defaults-IsDefaulted c = record {
  level = or_default-given c.logging.level info (ground arith);
  format = or_default-given c.logging.format json (ground arith);
  shards = shards-IsPositive c.ue_store_shards;
}

-- A configuration that has its defaults is left as it is.
apply_defaults-keeps : (c : Config) → IsDefaulted c → apply_defaults c ≡ c
unfolding apply_defaults
apply_defaults-keeps c h = ground (
  arith,
  or_default-keeps c.logging.level info h.level,
  or_default-keeps c.logging.format json h.format,
  (not_positive_iff c.ue_store_shards).1 h.shards,
)

-- The defaults are filled in once: a second time changes nothing, and afterwards the level, the
-- format and the number of shards are set.
pub apply_defaults_idem :
    (c : Config)
    → (apply_defaults (apply_defaults c) ≡ apply_defaults c) × IsDefaulted (apply_defaults c)
apply_defaults_idem c = (
  apply_defaults-keeps (apply_defaults c) (apply_defaults-IsDefaulted c),
  apply_defaults-IsDefaulted c,
)

accepted-inv :
    (c cfg : Config)
    → elim (validate c) [ [] ↦ some c | _ ∷ _ ↦ none ] ≡ some cfg
    → (validate c ≡ []) × (c ≡ cfg)
accepted-inv c cfg e = ground arith

started :
    (disk : Disk) (path raw : Bytes) (decoded : Config)
    → disk.read_file path ≡ some raw
    → disk.decode raw ≡ some decoded
    → validate (apply_defaults decoded) ≡ []
    → new_app disk path ≡ some (apply_defaults decoded)
unfolding new_app load
started disk path raw decoded r d fine = ground arith

-- The program starts with a configuration exactly where the file can be read and decoded, the
-- configuration is the decoded one with its defaults, and that is complete.
pub new_app_iff :
    (disk : Disk) (path : Bytes) (cfg : Config)
    → (new_app disk path ≡ some cfg) ↔ (
        (raw : Bytes) × (decoded : Config) × (disk.read_file path ≡ some raw)
        × (disk.decode raw ≡ some decoded)
        × (apply_defaults decoded ≡ cfg)
        × IsComplete cfg)
unfolding new_app load
new_app_iff disk path cfg = (
  λ e. elim (Option-cases (disk.read_file path)) [
    | inl none_read ↦ ground arith
    | inr (raw, r) ↦ elim (Option-cases (disk.decode raw)) [
      | inl none_decoded ↦ ground arith
      | inr (decoded, d) ↦
          let (fine, same) = accepted-inv (apply_defaults decoded) cfg (ground arith) in
          (raw, decoded, r, d, same, rw (← same) ((validate_iff (apply_defaults decoded)).0 fine))
    ]
  ],
  λ (raw, decoded, r, d, same, complete).
      started disk path raw decoded r d
        ((validate_iff (apply_defaults decoded)).1 (rw same complete))
      ∙ ap some same,
)
