-- ===== src/Options/Assignments.antt =====
-- What is written rest a list of assignments is read back rest that list.
use whippet.Base.{
  ℕ, zero, suc, ◌<◌, ◌≡◌, refl, ◌∙◌, List, [], ◌∷◌, ◌++◌, Option, none, some, Bool, true, false,
  arith, ◌>>=◌, length, length-append, All, Option-cases, inl, inr,
}
use whippet.Options.{
  is_option, is_option_end, is_value, is_value_end, read_token, parse_loop, parse_and_set_many,
}

-- A name and a value, of the characters that they may have.
pub record Assignment : Type 0 where
  pub name : List ℕ
  pub value : List ℕ
  pub name_valid : All (λ (c : ℕ). is_option c ≡ true) name
  pub value_valid : All (λ (c : ℕ). is_value c ≡ true) value

-- `name=value,name=value`.
abbrev pub print : Assignment → List Assignment → List ℕ
print a [] = a.name ++ 61 ∷ a.value
print a (b ∷ bs) = a.name ++ 61 ∷ (a.value ++ 44 ∷ print b bs)

token_at_end :
    (is_tok is_end : ℕ → Bool) (token : List ℕ)
    → All (λ (c : ℕ). is_tok c ≡ true) token
    → is_end 0 ≡ true
    → read_token is_tok is_end token ≡ some (token, 0, [])
unfolding read_token
token_at_end is_tok is_end [] h e = rw e refl
token_at_end is_tok is_end (c ∷ cs) h e =
    rw (read_token, h.0, token_at_end is_tok is_end cs h.1 e, ◌>>=◌) refl

token_before :
    (is_tok is_end : ℕ → Bool) (token : List ℕ) (d : ℕ) (rest : List ℕ)
    → All (λ (c : ℕ). is_tok c ≡ true) token
    → is_tok d ≡ false
    → is_end d ≡ true
    → read_token is_tok is_end (token ++ d ∷ rest) ≡ some (token, d, rest)
unfolding read_token
token_before is_tok is_end [] d rest h n e = rw (n, e) refl
token_before is_tok is_end (c ∷ cs) d rest h n e =
    rw (h.0, token_before is_tok is_end cs d rest h.1 n e, ◌>>=◌) refl

module _ {ℓ} {Options : Type ℓ} (option_from_string : List ℕ → Option ℕ)
    (parse_and_set : Options → ℕ → List ℕ → Option Options) where
  -- The option of one assignment, if its name is known and its value is taken.
  abbrev pub set_one : Options → Assignment → Option Options
  set_one options a = do option ← option_from_string a.name; parse_and_set options option a.value

  -- The assignments one after the other, up to the first that fails.
  abbrev pub set_all : Options → List Assignment → Bool × Options
  set_all options [] = (true, options)
  set_all options (a ∷ rest) = elim (set_one options a) [
    | none ↦ (false, options)
    | some options' ↦ set_all options' rest
  ]

  parse_loop-print :
      (fuel : ℕ) (options : Options) (a : Assignment) (rest : List Assignment)
      → length rest < fuel
      → parse_loop option_from_string parse_and_set fuel options (print a rest)
        ≡ some (set_all options (a ∷ rest))
  unfolding parse_loop
  parse_loop-print zero options a rest h = absurd (omega (arith, h))
  parse_loop-print (suc fuel) options a [] h =
      let n = token_before is_option is_option_end a.name 61 a.value a.name_valid refl refl in
      let v = token_at_end is_value is_value_end a.value a.value_valid refl in
      elim (Option-cases (option_from_string a.name)) [
        | inl unknown ↦ rw (parse_loop, set_all, set_one, n, unknown, ◌>>=◌) refl
        | inr (option, known) ↦ elim (Option-cases (parse_and_set options option a.value)) [
          | inl bad ↦ rw (parse_loop, set_all, set_one, n, known, v, ◌>>=◌, bad) refl
          | inr (options', good) ↦ rw (parse_loop, set_all, set_one, n, known, v, ◌>>=◌, good) refl
        ]
      ]
  parse_loop-print (suc fuel) options a (b ∷ bs) h =
      let n =
        token_before is_option is_option_end a.name 61 (a.value ++ 44 ∷ print b bs) a.name_valid
          refl refl in
      let v = token_before is_value is_value_end a.value 44 (print b bs) a.value_valid refl refl in
      elim (Option-cases (option_from_string a.name)) [
        | inl unknown ↦ rw (parse_loop, set_all, set_one, n, unknown, ◌>>=◌) refl
        | inr (option, known) ↦ elim (Option-cases (parse_and_set options option a.value)) [
          | inl bad ↦ rw (parse_loop, set_all, set_one, n, known, v, ◌>>=◌, bad) refl
          | inr (options', good) ↦
              rw (parse_loop, set_all, set_one, n, known, v, ◌>>=◌, good)
                (parse_loop-print fuel options' b bs (omega (arith, h)))
        ]
      ]

  length-print : (a : Assignment) (rest : List Assignment) → length rest < length (print a rest)
  length-print a [] = omega (arith, length-append a.name (61 ∷ a.value))
  length-print a (b ∷ bs) = omega (
    arith,
    length-append a.name (61 ∷ (a.value ++ 44 ∷ print b bs)),
    length-append a.value (44 ∷ print b bs),
    length-print b bs,
  )

  many-loop :
      (fuel : ℕ) (options : Options) (str : List ℕ)
      → 0 < length str
      → parse_and_set_many option_from_string parse_and_set fuel options str
        ≡ parse_loop option_from_string parse_and_set fuel options str
  unfolding parse_and_set_many
  many-loop fuel options [] h = absurd (omega (arith, h))
  many-loop fuel options (c ∷ cs) h = refl

  -- Parsing what is written rest a list of assignments, of valid characters, ends within the string's
  -- length of rounds, and does what setting them one after the other does: it succeeds exactly if every
  -- name is known and every value is taken, and what was set before the first that fails stays set.
  pub parse_and_set_many-print :
      (options : Options) (a : Assignment) (rest : List Assignment)
      → parse_and_set_many option_from_string parse_and_set
          (length (print a rest))
          options
          (print a rest)
        ≡ some (set_all options (a ∷ rest))
  parse_and_set_many-print options a rest =
      let h = length-print a rest in
      many-loop (length (print a rest)) options (print a rest) (omega (arith, h))
      ∙ parse_loop-print (length (print a rest)) options a rest h
