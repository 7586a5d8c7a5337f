-- ===== src/Base/Word.antt =====
-- The 64-bit words `size_t`, `uintptr_t` and `uint64_t`, and the shifts of C on them.
use Prim.Native.Nat.{ℕ, ◌+◌, ◌-◌, ◌*◌, ◌/◌, ◌%◌, ◌^◌}

abbrev pub word_mod : ℕ
word_mod = 2 ^ 64

-- What is stored into a 64-bit variable.
abbrev pub word : ℕ → ℕ
word n = n % word_mod

-- Subtraction of two words, with the borrow dropped.
abbrev pub sub_word : ℕ → ℕ → ℕ
sub_word a b = (a + word_mod - b) % word_mod

infixl 75 ◌<<<◌ ◌>>>◌
abbrev pub ◌<<<◌ : ℕ → ℕ → ℕ
x <<< k = x * 2 ^ k

abbrev pub ◌>>>◌ : ℕ → ℕ → ℕ
x >>> k = x / 2 ^ k
