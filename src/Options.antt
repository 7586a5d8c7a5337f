-- ===== src/Options.antt =====
-- src/gc-options.c: the list of options in a string, `name=value,name=value`, and the ranges of options. A
-- string is the list of its characters' codes up to the final NUL, which is read where the list ends. The
-- options of a collector, the numbers of their names and the parsers of their values are arguments, as
-- the collector that is linked chooses them.
use whippet.Base.{
  ℕ, zero, suc, List, [], ◌∷◌, Option, none, some, Bool, true, false, ◌&&◌, ◌||◌, ltb, leb, ◌==◌,
  if◌then◌else◌, ◌>>=◌, not,
}
pub mod Assignments
mod Tests

abbrev pub clamp_size : ℕ → ℕ → ℕ → ℕ
clamp_size n lo hi = if ltb n lo then lo else if ltb hi n then hi else n

-- A setter of an option takes a value in its range.
unfoldable pub set_size : ℕ → ℕ → ℕ → Option ℕ
set_size value lo hi = if value == clamp_size value lo hi then some value else none

abbrev pub is_lower : ℕ → Bool
is_lower c = leb 97 c && leb c 122

abbrev pub is_digit : ℕ → Bool
is_digit c = leb 48 c && leb c 57

abbrev pub is_option : ℕ → Bool
is_option c = is_lower c || (c == 45)

abbrev pub is_option_end : ℕ → Bool
is_option_end c = c == 61

abbrev pub is_value : ℕ → Bool
is_value c = is_lower c || is_digit c || (c == 45) || (c == 43) || (c == 46)

abbrev pub is_value_end : ℕ → Bool
is_value_end c = (c == 0) || (c == 44)

-- The token, its delimiter and what is behind that.
unfoldable pub read_token : (ℕ → Bool) → (ℕ → Bool) → List ℕ → Option (List ℕ × ℕ × List ℕ)
read_token is_tok is_end [] = if is_end 0 then some ([], 0, []) else none
read_token is_tok is_end (c ∷ cs) = elim (is_tok c) [
  | true ↦ do (token, delim, rest) ← read_token is_tok is_end cs; some (c ∷ token, delim, rest)
  | false ↦ if is_end c then some ([], c, cs) else none
]

module _ {ℓ} {Options : Type ℓ} (option_from_string : List ℕ → Option ℕ)
    (parse_and_set : Options → ℕ → List ℕ → Option Options) where
  -- Whether the options are set, and what they are then; the options before one that fails stay set.
  -- Fuel is the length of the string and one.
  unfoldable pub parse_loop : ℕ → Options → List ℕ → Option (Bool × Options)
  unfolding read_token
  parse_loop zero options cur = none
  parse_loop (suc fuel) options cur = elim (read_token is_option is_option_end cur) [
    | none ↦ some (false, options)
    | some (name, delim, next) ↦ elim (option_from_string name) [
      | none ↦ some (false, options)
      | some option ↦ elim (read_token is_value is_value_end next) [
        | none ↦ some (false, options)
        | some (value, delim', next') ↦ elim (parse_and_set options option value) [
          | none ↦ some (false, options)
          | some options' ↦ elim (delim' == 0) [
            | true ↦ some (true, options')
            | false ↦ parse_loop fuel options' next'
          ]
        ]
      ]
    ]
  ]

  unfoldable pub parse_and_set_many : ℕ → Options → List ℕ → Option (Bool × Options)
  unfolding parse_loop
  parse_and_set_many fuel options [] = some (true, options)
  parse_and_set_many fuel options (c ∷ cs) = parse_loop fuel options (c ∷ cs)
