-- ===== src/Memory.antt =====
-- The C heap as the queue uses it: nodes of a singly linked list at addresses.
use tools_on_linux.Prelude.{
  ℕ, Bool, true, false, Option, none, some, ◌==◌, if◌then◌else◌, ◌||◌, List, [], ◌∷◌, ◌≡◌, ◌≢◌,
}
pub mod Chain

abbrev pub Ptr : Type 0
Ptr = ℕ

abbrev pub null : Ptr
null = 0

-- `struct Element`: the user's pointer and the link.
pub record Element : Type 0 where
  pub content : ℕ
  pub next : Ptr

abbrev pub element : ℕ → Ptr → Element
element d n = record { content = d; next = n }

abbrev pub Heap : Type 0
Heap = Ptr → Option Element

unfoldable pub write : Heap → Ptr → Option Element → Heap
write h p c a = if a == p then c else h a
