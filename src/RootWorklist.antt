-- ===== src/RootWorklist.antt =====
-- src/root-worklist.h: the roots of a collection, added by one producer and then taken by several
-- consumers. A list holds the part of the buffer that was written; a root of kind NONE is `none`. A pop
-- takes its index in one atomic step and then reads what no one writes any more, so it is one step.
pub mod Order
mod Tests
use whippet.Base.{
  ℕ, zero, suc, ◌+◌, ◌*◌, List, [], ◌∷◌, ◌++◌, Option, none, some, if◌then◌else◌, ltb, ◌==◌,
  get_elem?, take,
}
use whippet.Base.Word.{word, sub_word}

pub record RootWorklist {ℓ} (Root : Type ℓ) : Type ℓ where
  pub size : ℕ
  pub read : ℕ
  pub write : ℕ
  pub buf : List Root

module _ {ℓ} {Root : Type ℓ} where
  unfoldable pub init : RootWorklist Root
  init = record { size = 16; read = 0; write = 0; buf = [] }

  -- The buffer is as large as `size` says; a realloc keeps what it holds.
  unfoldable pub push : RootWorklist Root → Root → RootWorklist Root
  push q root = record {
    size = if q.write == q.size then q.size * 2 else q.size;
    read = q.read;
    write = word (q.write + 1);
    buf = take q.write q.buf ++ root ∷ [];
  }

  unfoldable pub size_of : RootWorklist Root → ℕ
  size_of q = sub_word q.write q.read

  unfoldable pub pop : RootWorklist Root → Option Root × RootWorklist Root
  pop q =
      let idx = q.read in
      (if ltb idx q.write then get_elem? q.buf idx else none, record q { read = word (idx + 1) })

  unfoldable pub reset : RootWorklist Root → RootWorklist Root
  reset q = record q { read = 0; write = 0 }
