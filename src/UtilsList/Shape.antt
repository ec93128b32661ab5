-- ===== src/UtilsList/Shape.antt =====
-- The list that a struct `List` stands for.
use esp_qcloud.Prelude.{Option, ◌≡◌, length}
use esp_qcloud.UtilsList.Heap.{Ptr, null, ListNode, Memory}
use esp_qcloud.UtilsList.Heap.Links.{Cells, Distinct, first, last, Links}
use esp_qcloud.UtilsList.{LinkedList}

pub record IsList (h : Ptr → Option ListNode) (self : LinkedList) (xs : Cells) : Type 0 where
  pub head : self.head ≡ first xs null
  pub tail : self.tail ≡ last null xs
  pub len : self.len ≡ length xs
  pub links : Links h null xs null
  pub distinct : Distinct xs

-- A command that changed nothing but nodes.
abbrev pub OnlyNodes : Memory → Memory → Type 0
OnlyNodes m g = g ≡ record m { nodes = g.nodes }
