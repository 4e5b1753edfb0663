-- ===== src/Logger.antt =====
-- internal/common/logger/logger.go: what the wrapper makes of its arguments before it calls zerolog.
-- Levels and `ParseLevel` are zerolog's and parameters. `ToUpper` and `ToLower` are those of ASCII
-- text, in which the names of all levels are written.
pub mod Format
use central_unit.Base.{
  ℕ, ◌+◌, ◌-◌, ◌/◌, ◌&&◌, leb, List, [], ◌∷◌, ◌++◌, map, length, replicate, Option, none, some,
  ◌==◌, if◌then◌else◌,
}
use central_unit.Bytes.{Bytes, equal}

abbrev pub upper_char : ℕ → ℕ
upper_char c = if leb b'a' c && leb c b'z' then c - 32 else c

abbrev pub lower_char : ℕ → ℕ
lower_char c = if leb b'A' c && leb c b'Z' then c + 32 else c

abbrev pub to_upper : Bytes → Bytes
to_upper = map upper_char

abbrev pub to_lower : Bytes → Bytes
to_lower = map lower_char

abbrev pub debug_name : Bytes
debug_name = b'D' ∷ b'E' ∷ b'B' ∷ b'U' ∷ b'G' ∷ []

abbrev pub info_name : Bytes
info_name = b'I' ∷ b'N' ∷ b'F' ∷ b'O' ∷ []

abbrev pub warn_name : Bytes
warn_name = b'W' ∷ b'A' ∷ b'R' ∷ b'N' ∷ []

abbrev pub error_name : Bytes
error_name = b'E' ∷ b'R' ∷ b'R' ∷ b'O' ∷ b'R' ∷ []

abbrev pub fatal_name : Bytes
fatal_name = b'F' ∷ b'A' ∷ b'T' ∷ b'A' ∷ b'L' ∷ []

-- `"\033[3" + digit + "m" + level + "\033[0m"`
abbrev pub coloured : ℕ → Bytes → Bytes
coloured digit level = 27 ∷ b'[' ∷ b'3' ∷ digit ∷ b'm' ∷ level ++ 27 ∷ b'[' ∷ b'0' ∷ b'm' ∷ []

-- The `FormatLevel` of the console writer; the text of the level is given.
unfoldable pub format_level : Bytes → Bytes
unfolding equal
format_level text =
    let level = to_upper text in
    if equal level debug_name
    then coloured b'6' level
    else if equal level info_name
    then coloured b'2' level
    else if equal level warn_name
    then coloured b'3' level
    else if equal level error_name
    then coloured b'1' level
    else if equal level fatal_name
    then coloured b'5' level
    else level

-- The logger that `InitLogger` makes, as the fields of its context in order. A nil map is `none`; a
-- map is given in the order in which the loop meets it. `added` is what zerolog's `Fields` adds for
-- a map of strings. The level that the function takes is not used.
unfoldable pub init_logger :
    (added : List (Bytes × Bytes) → List (Bytes × Bytes))
    → Bytes
    → Option (List (Bytes × Bytes))
    → List (Bytes × Bytes)
init_logger added level none = []
init_logger added level (some fields) = added fields ++ fields

-- The runes of a valid UTF-8 text: its bytes but the continuation bytes.
unfoldable pub rune_count : Bytes → ℕ
rune_count [] = 0
rune_count (c ∷ cs) = if c / 64 == 2 then rune_count cs else 1 + rune_count cs

-- `fmt.Sprintf("%-50s\t", format)`, the format that `Info`, `Warn`, `Error`, `Fatal`, `Panic`,
-- `Trace`, `Debug` and `Printf` pass on.
unfoldable pub padded : Bytes → Bytes
unfolding rune_count
padded format = format ++ (replicate (50 - rune_count format) b' ' ++ 9 ∷ [])

-- The global level after `ParseLogLevel`; `parse` is zerolog's `ParseLevel`.
unfoldable pub parse_log_level :
    {L : Type 0} → (parse : Bytes → Option L) → (info_level current : L) → Bytes → L
parse_log_level parse info_level current [] = current
parse_log_level parse info_level current (c ∷ level) = elim (parse (to_lower (c ∷ level))) [
  | none ↦ info_level
  | some l ↦ l
]
