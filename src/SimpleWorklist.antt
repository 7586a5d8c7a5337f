-- ===== src/SimpleWorklist.antt =====
-- src/simple-worklist.h: the queue of grey objects of a serial trace, in a ring buffer that grows. A
-- reference is a number, and 0 is null. A mask with `size - 1` is the rest by `size`, which is a power
-- of two: it starts as a page's worth of references and doubles.
pub mod Ring
pub mod Queue
pub mod Many
mod Tests
use whippet.Base.{
  ℕ, zero, suc, ◌+◌, ◌-◌, ◌*◌, ◌/◌, ◌%◌, ◌^◌, List, [], ◌∷◌, Option, none, some, Bool, true, false,
  if◌then◌else◌, ltb, leb, ◌==◌, ◌>>=◌, ◌>>◌, assert, get_or, set, replicate,
}
use whippet.Base.Word.{word, sub_word}

pub record Worklist : Type 0 where
  pub size : ℕ
  pub read : ℕ
  pub write : ℕ
  pub buf : List ℕ

-- `sizeof(struct gc_ref)`.
abbrev pub ref_size : ℕ
ref_size = 8

abbrev pub max_size : ℕ
max_size = 2 ^ 63 / ref_size

unfoldable pub get : Worklist → ℕ → ℕ
get q idx = get_or q.buf (idx % q.size) 0

unfoldable pub put : Worklist → ℕ → ℕ → Worklist
put q idx x = record q { buf = set q.buf (idx % q.size) x }

-- The loop of `simple_worklist_grow`, over `n` indices from `i` on.
unfoldable pub copy_loop : List ℕ → ℕ → ℕ → ℕ → ℕ → List ℕ → List ℕ
copy_loop old_buf old_size new_size i zero new_buf = new_buf
copy_loop old_buf old_size new_size i (suc n) new_buf =
    copy_loop old_buf old_size new_size (i + 1) n
      (set new_buf (i % new_size) (get_or old_buf (i % old_size) 0))

-- `write++` behind a `put`.
unfoldable pub put_next : Worklist → ℕ → Worklist
unfolding put
put_next q x = record (put q q.write x) { write = word (q.write + 1) }

unfoldable pub put_all : Worklist → List ℕ → Worklist
unfolding put_next
put_all q [] = q
put_all q (x ∷ xs) = put_all (put_next q x) xs

-- The null reference of an empty worklist is 0.
unfoldable pub pop : Worklist → ℕ × Worklist
unfolding get
pop q = if q.read == q.write then (0, q) else (get q q.read, record q { read = word (q.read + 1) })

-- Whether the platform grants so many bytes is `acquire_memory`; fresh memory is zero.
module _ (acquire_memory : ℕ → Bool) where
  unfoldable pub alloc : ℕ → Option (List ℕ)
  alloc size = if acquire_memory (size * ref_size) then some (replicate size 0) else none

  unfoldable pub init : ℕ → Option Worklist
  unfolding alloc
  init page_size = do
    buf ← alloc (page_size / ref_size)
    some (record { size = page_size / ref_size; read = 0; write = 0; buf = buf })

  unfoldable pub grow : Worklist → Option Worklist
  unfolding alloc copy_loop
  grow q = elim (leb max_size q.size) [
    | true ↦ none
    | false ↦ do
      let new_size = q.size * 2
      new_buf ← alloc new_size
      some (record q {
        size = new_size;
        buf = copy_loop q.buf q.size new_size q.read (q.write - q.read) new_buf;
      })
  ]

  -- GC_CRASH is `none`.
  unfoldable pub push : Worklist → ℕ → Option Worklist
  unfolding grow put_next
  push q p = elim (sub_word q.write q.read == q.size) [
    | true ↦ do q' ← grow q; some (put_next q' p)
    | false ↦ some (put_next q p)
  ]

  -- The loop that makes room, with fuel for one round more than there are references to push.
  unfoldable pub reserve : ℕ → Worklist → ℕ → Option Worklist
  unfolding grow
  reserve zero q count = none
  reserve (suc fuel) q count = elim (ltb (sub_word q.size (sub_word q.write q.read)) count) [
    | false ↦ some q
    | true ↦ do q' ← grow q; reserve fuel q' count
  ]

  unfoldable pub push_many : Worklist → List ℕ → ℕ → Option Worklist
  unfolding reserve put_all
  push_many q pv count = do q' ← reserve (suc count) q count; some (put_all q' pv)

-- What is in the buffer is left there, or lost to the system where it is large; it is not read again.
unfoldable pub release : Worklist → Worklist
release q = record q { read = 0; write = 0 }
