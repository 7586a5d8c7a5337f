-- ===== src/CopySpace/State.antt =====
-- src/copy-space.h: the space's state, its block lists, and paging in and out.
use whippet.Base.{
  ℕ, zero, suc, ◌+◌, List, [], ◌∷◌, Option, none, some, Bool, true, false, not, if◌then◌else◌, ltb,
  ◌>>=◌, ◌>>◌, assert, length,
}
use whippet.Base.Word.{word, sub_word}
use whippet.Base.Int.{ℤ, pos, ◌+ℤ◌, ◌-ℤ◌, ltb_ℤ}
use whippet.CopySpace.Layout.{block_size, region_size}

-- `uint8_t f[2]`, one flag for each region.
pub record Flags : Type 0 where
  pub first : Bool
  pub second : Bool

abbrev pub flag : Flags → Bool → Bool
flag f region = if region then f.second else f.first

abbrev pub set_flag : Flags → Bool → Bool → Flags
set_flag f region value = if region then record f { second = value } else record f { first = value }

-- The header at `addr`.
pub record Block : Type 0 where
  pub addr : ℕ
  pub in_core : Bool
  pub all_zeroes : Flags
  pub is_survivor : Flags
  pub allocated : ℕ

-- `paged_out`, by age.
pub record PagedOut : Type 0 where
  pub age0 : List Block
  pub age1 : List Block
  pub age2 : List Block
  pub age3 : List Block

-- The bytes to page out are a signed word in the code, and an integer here: the two agree as long as the
-- requests to release and to take back memory stay below 2^63 bytes.
pub record Space : Type 0 where
  pub empty : List Block
  pub partly_full : List Block
  pub full : List Block
  pub allocated_bytes : ℕ
  pub fragmentation : ℕ
  pub paged_out : PagedOut
  pub bytes_to_page_out : ℤ
  pub active_region : Bool
  pub in_gc : Bool
  pub allocated_bytes_at_last_gc : ℕ
  pub fragmentation_at_last_gc : ℕ

unfoldable pub block_list_push : List Block → Block → List Block
block_list_push list block = block ∷ list

unfoldable pub block_list_pop : List Block → Option Block × List Block
block_list_pop [] = (none, [])
block_list_pop (head ∷ next) = (some head, next)

unfoldable pub pop_empty_block : Space → Option Block × Space
unfolding block_list_pop
pop_empty_block s =
    let (popped, rest) = block_list_pop s.empty in
    elim popped [
      | none ↦ (none, record s { empty = rest })
      | some b ↦ (
        some (record b {
          allocated = 0;
          is_survivor = set_flag b.is_survivor s.active_region false;
        }),
        record s { empty = rest },
      )
    ]

unfoldable pub push_empty_block : Space → Block → Space
unfolding block_list_push
push_empty_block s b = record s { empty = block_list_push s.empty b }

unfoldable pub pop_full_block : Space → Option Block × Space
unfolding block_list_pop
pop_full_block s = let (popped, rest) = block_list_pop s.full in (popped, record s { full = rest })

unfoldable pub push_full_block : Space → Block → Space
unfolding block_list_push
push_full_block s b =
    let b' =
      if s.in_gc
      then record b { is_survivor = set_flag b.is_survivor s.active_region true }
      else b in
    record s { full = block_list_push s.full b' }

unfoldable pub pop_partly_full_block : Space → Option Block × Space
unfolding block_list_pop
pop_partly_full_block s =
    let (popped, rest) = block_list_pop s.partly_full in (popped, record s { partly_full = rest })

unfoldable pub push_partly_full_block : Space → Block → Space
unfolding block_list_push
push_partly_full_block s b = record s { partly_full = block_list_push s.partly_full b }

-- A block that is not in core joins those whose memory the system has already.
unfoldable pub page_out_block : Space → Block → Space
unfolding block_list_push
page_out_block s b =
    let p = s.paged_out in
    if b.in_core
    then record s { paged_out = record p { age0 = block_list_push p.age0 b } }
    else record s { paged_out = record p { age3 = block_list_push p.age3 b } }

-- The loop over the ages, the youngest first.
unfoldable pub page_in : PagedOut → Option Block × PagedOut
unfolding block_list_pop
page_in p =
    let (b0, l0) = block_list_pop p.age0 in
    let (b1, l1) = block_list_pop p.age1 in
    let (b2, l2) = block_list_pop p.age2 in
    let (b3, l3) = block_list_pop p.age3 in
    elim b0 [
      | some b ↦ (some b, record p { age0 = l0 })
      | none ↦ elim b1 [
        | some b ↦ (some b, record p { age1 = l1 })
        | none ↦ elim b2 [
          | some b ↦ (some b, record p { age2 = l2 })
          | none ↦ elim b3 [ some b ↦ (some b, record p { age3 = l3 }) | none ↦ (none, p) ]
        ]
      ]
    ]

unfoldable pub page_in_block : Space → Option Block × Space
unfolding page_in
page_in_block s = let (b, p) = page_in s.paged_out in (b, record s { paged_out = p })

unfoldable pub request_release_memory : Space → ℕ → ℤ × Space
request_release_memory s bytes =
    let pending = s.bytes_to_page_out +ℤ pos bytes in
    (pending, record s { bytes_to_page_out = pending })

-- The loop, with fuel for one round more than there are empty blocks; `none` is fuel that ran out.
unfoldable pub page_out_loop : ℕ → ℤ → Space → Option (ℤ × Space)
page_out_loop zero pending s = none
page_out_loop (suc fuel) pending s = elim (ltb_ℤ (pos 0) pending) [
  | false ↦ some (pending, s)
  | true ↦
      let (popped, s') = pop_empty_block s in
      elim popped [
        | none ↦ some (pending, s')
        | some b ↦
            let left = s'.bytes_to_page_out -ℤ pos block_size in
            page_out_loop fuel left (record (page_out_block s' b) { bytes_to_page_out = left })
      ]
]

unfoldable pub page_out_blocks_until_memory_released : Space → Option (ℤ × Space)
page_out_blocks_until_memory_released s = page_out_loop (suc (length s.empty)) s.bytes_to_page_out s

abbrev pub paged_out_count : PagedOut → ℕ
paged_out_count p = length p.age0 + length p.age1 + length p.age2 + length p.age3

unfoldable pub reacquire_loop : ℕ → ℤ → Space → Option (ℤ × Space)
reacquire_loop zero pending s = none
reacquire_loop (suc fuel) pending s = elim (ltb_ℤ (pos 0) (pending +ℤ pos block_size)) [
  | true ↦ some (pending, s)
  | false ↦
      let (popped, s') = page_in_block s in
      elim popped [
        | none ↦ some (pending, s')
        | some b ↦
            let left = s'.bytes_to_page_out +ℤ pos block_size in
            reacquire_loop fuel left (record (push_empty_block s' b) { bytes_to_page_out = left })
      ]
]

unfoldable pub maybe_reacquire_memory : Space → ℕ → Option (ℤ × Space)
maybe_reacquire_memory s bytes =
    let pending = s.bytes_to_page_out -ℤ pos bytes in
    reacquire_loop (suc (paged_out_count s.paged_out)) pending
      (record s { bytes_to_page_out = pending })

unfoldable pub reacquire_memory : Space → ℕ → Option Space
reacquire_memory s bytes = do
  (pending, s') ← maybe_reacquire_memory s bytes
  assert (ltb_ℤ (pos 0) (pending +ℤ pos block_size))
  some s'

unfoldable pub shrink : Space → ℕ → Option Space
unfolding request_release_memory
shrink s bytes = do
  let (pending, s') = request_release_memory s bytes
  (left, s'') ← page_out_blocks_until_memory_released s'
  some s''

-- Pops until the first list is empty, and pushes on the second.
unfoldable pub move_all : (Block → Block) → List Block → List Block → List Block
unfolding block_list_push
move_all f [] to = to
move_all f (b ∷ from) to = move_all f from (block_list_push to (f b))

-- The two older ages that are not yet due move on, the older first.
unfoldable pub advance_page_out_queue : Space → Space
unfolding move_all
advance_page_out_queue s =
    let p = s.paged_out in
    let age2 = move_all (λ b. b) p.age1 p.age2 in
    let age1 = move_all (λ b. b) p.age0 [] in
    record s { paged_out = record p { age0 = []; age1 = age1; age2 = age2 } }

abbrev pub discard : Block → Block
discard b = record b { in_core = false; all_zeroes = record { first = true; second = true } }

unfoldable pub page_out_blocks : Space → Space
unfolding move_all
page_out_blocks s =
    let p = s.paged_out in
    record s { paged_out = record p { age2 = []; age3 = move_all discard p.age2 p.age3 } }

-- The `next` of the last block of `head` is set to `tail`.
unfoldable pub append_block_lists : List Block → List Block → List Block
append_block_lists [] tail = tail
append_block_lists (b ∷ head) tail = b ∷ append_block_lists head tail

unfoldable pub flip : Space → Space
unfolding append_block_lists
flip s =
    let flipped = append_block_lists s.empty (append_block_lists s.partly_full s.full) in
    record s {
      empty = flipped;
      partly_full = [];
      full = [];
      allocated_bytes = 0;
      fragmentation = 0;
      active_region = not s.active_region;
      in_gc = true;
    }

abbrev count_regions : List Block → ℕ → ℕ → ℕ
count_regions [] bytes count = count
count_regions (b ∷ empties) bytes count =
    if ltb count bytes then count_regions empties bytes (count + region_size) else count

unfoldable pub can_allocate : Space → ℕ → ℕ
can_allocate s bytes = count_regions s.empty bytes 0

unfoldable pub add_to_allocation_counter : Space → ℕ → ℕ
add_to_allocation_counter s counter =
    word (counter + sub_word s.allocated_bytes s.allocated_bytes_at_last_gc)
