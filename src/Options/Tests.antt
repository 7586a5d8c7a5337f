-- ===== src/Options/Tests.antt =====
-- Runs of the parser of options, with one option, of which a value's length is taken up to 2.
use whippet.Base.{ℕ, ◌≡◌, refl, List, [], ◌∷◌, Option, none, some, true, false, length, ◌==◌}
use whippet.Options.{set_size, read_token, parse_loop, parse_and_set_many}
use whippet.Options.Assignments.{Assignment, print, set_all, parse_and_set_many-print}

abbrev option_from_string : List ℕ → Option ℕ
option_from_string name = elim (length name == 1) [ true ↦ some 0 | false ↦ none ]

abbrev parse_and_set : ℕ → ℕ → List ℕ → Option ℕ
parse_and_set options option value = set_size (length value) 0 2

-- `a=1g` and `b=123`.
abbrev first : Assignment
first = record {
  name = 97 ∷ [];
  value = 49 ∷ 103 ∷ [];
  name_valid = (refl, tt);
  value_valid = (refl, (refl, tt));
}

abbrev second : Assignment
second = record {
  name = 98 ∷ [];
  value = 49 ∷ 50 ∷ 51 ∷ [];
  name_valid = (refl, tt);
  value_valid = (refl, (refl, (refl, tt)));
}

parse_and_set_many-print_example :
    parse_and_set_many option_from_string parse_and_set 10 0 (print first (second ∷ []))
    ≡ some (set_all option_from_string parse_and_set 0 (first ∷ second ∷ []))
parse_and_set_many-print_example =
    parse_and_set_many-print option_from_string parse_and_set 0 first (second ∷ [])

-- The second value is too large, and the first stays set.
sets_first :
    parse_and_set_many option_from_string parse_and_set 10 0 (print first (second ∷ []))
    ≡ some (false, 2)
unfolding parse_and_set_many parse_loop read_token set_size
sets_first = refl

-- A delimiter is missing.
rejects : parse_and_set_many option_from_string parse_and_set 4 0 (97 ∷ 49 ∷ []) ≡ some (false, 0)
unfolding parse_and_set_many parse_loop read_token
rejects = refl
