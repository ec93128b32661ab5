-- ===== src/UtilsList/Heap.antt =====
-- The memory behind the lists of sdk_src/utils_list.c: nodes at addresses, and the commands of C that read
-- and write them. A command faults on NULL and at an address that holds no node.
pub mod Points
pub mod Links
pub mod Returns
use esp_qcloud.Prelude.{ℕ, Option, none, some, List, ◌==◌, if◌then◌else◌}

abbrev pub Ptr : Type 0
Ptr = ℕ

abbrev pub null : Ptr
null = 0

pub record ListNode : Type 0 where
  pub prev : Ptr
  pub next : Ptr
  pub val : ℕ

-- The nodes, the numbers of lists and of iterators that are allocated, and the values that were
-- given to a list's `free`.
pub record Memory : Type 0 where
  pub nodes : Ptr → Option ListNode
  pub lists : ℕ
  pub iterators : ℕ
  pub released : List ℕ

pub data Run (A : Type 0) : Type 0 where
  done : A → Memory → Run A
  fault : Run A
  out_of_fuel : Run A

abbrev pub Cmd : Type 0 → Type 0
Cmd A = Memory → Run A

abbrev pub pure : {A : Type 0} → A → Cmd A
pure = done

module _ {A B : Type 0} where
  abbrev pub and_then : Run A → (A → Cmd B) → Run B
  and_then (done a m) k = k a m
  and_then fault k = fault
  and_then out_of_fuel k = out_of_fuel

  infixl 5 ◌>>=◌ ◌>>◌
  abbrev pub ◌>>=◌ : Cmd A → (A → Cmd B) → Cmd B
  c >>= k = λ m. and_then (c m) k

  abbrev pub ◌>>◌ : Cmd A → Cmd B → Cmd B
  c >> d = c >>= λ _. d

unfoldable pub write : (Ptr → Option ListNode) → Ptr → Option ListNode → Ptr → Option ListNode
write h p c a = if a == p then c else h a

abbrev pub store : Ptr → Option ListNode → Cmd (Unit {0})
store p c m = done tt (record m { nodes = write m.nodes p c })

unfoldable pub load : Ptr → Cmd ListNode
load p m = if p == null then fault else elim (m.nodes p) [ none ↦ fault | some n ↦ done n m ]

unfoldable pub set_next : Ptr → Ptr → Cmd (Unit {0})
set_next p q = do n ← load p; store p (some (record n { next = q }))

unfoldable pub set_prev : Ptr → Ptr → Cmd (Unit {0})
set_prev p q = do n ← load p; store p (some (record n { prev = q }))

unfoldable pub free_node : Ptr → Cmd (Unit {0})
free_node p = load p >> store p none
