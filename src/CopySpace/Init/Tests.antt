-- ===== src/CopySpace/Init/Tests.antt =====
-- A new space of a megabyte, and roundings.
use whippet.Base.{ℕ, ◌*◌, ◌≡◌, refl}
use whippet.CopySpace.Layout.{slab_size}
use whippet.CopySpace.Init.{round_up_power_of_two, is_power_of_two, bit_length}

abbrev granted : ℕ → ℕ → ℕ
granted size alignment = 3 * slab_size

rounds_up : round_up_power_of_two 200000000 ≡ 268435456
unfolding round_up_power_of_two is_power_of_two bit_length
rounds_up = refl
