-- ===== src/ListHead.antt =====
-- What the scheduler relies on of the circular lists of linux/list.h. That header is not part of
-- this repository, so its lists are an interface: the code's calls, and the documented effect of
-- each on the sequence of nodes that a walk from a head meets.
use kenrel_learning.Common.{
  ℕ, ◌≡◌, ◌≢◌, Bool, true, false, List, [], ◌∷◌, ◌++◌, ◌==◌, if◌then◌else◌, count, remove,
}

-- Heads and nodes are named by numbers: the index of a queue, the number of a task.
pub record ListApi : Type 1 where
  pub Heads : Type 0
  pub contents : Heads → ℕ → List ℕ
  pub init_list_head : ℕ → Heads → Heads
  pub list_add_tail : ℕ → ℕ → Heads → Heads
  pub list_del : ℕ → Heads → Heads
  pub list_move_tail : ℕ → ℕ → Heads → Heads
  pub list_add : ℕ → ℕ → Heads → Heads
  pub list_move : ℕ → ℕ → Heads → Heads
  -- node->prev == node->next, for a node of the second list.
  pub alone : ℕ → ℕ → Heads → Bool
  pub list_empty : ℕ → Heads → Bool
  pub next : ℕ → Heads → ℕ

-- A node that no list holds, and one that one list holds once.
abbrev pub IsUnlinked : (L : ListApi) → L.Heads → ℕ → Type 0
IsUnlinked L hs n = (j : ℕ) → count n (L.contents hs j) ≡ 0

pub record IsLinkedAt (L : ListApi) (hs : L.Heads) (n i : ℕ) : Type 0 where
  pub here : count n (L.contents hs i) ≡ 1
  pub elsewhere : (j : ℕ) → j ≢ i → count n (L.contents hs j) ≡ 0

pub record ListLaws (L : ListApi) : Type 0 where
  pub contents-init :
      (i j : ℕ) (hs : L.Heads)
      → L.contents (L.init_list_head i hs) j ≡ (if j == i then [] else L.contents hs j)
  pub contents-add_tail :
      (n i j : ℕ) (hs : L.Heads)
      → IsUnlinked L hs n
      → L.contents (L.list_add_tail n i hs) j
        ≡ (if j == i then L.contents hs j ++ n ∷ [] else L.contents hs j)
  pub contents-del :
      (n i j : ℕ) (hs : L.Heads)
      → IsLinkedAt L hs n i
      → L.contents (L.list_del n hs) j ≡ remove n (L.contents hs j)
  pub contents-move_tail :
      (n i k j : ℕ) (hs : L.Heads)
      → IsLinkedAt L hs n i
      → L.contents (L.list_move_tail n k hs) j
        ≡ (if j == k then remove n (L.contents hs j) ++ n ∷ [] else remove n (L.contents hs j))
  pub contents-add :
      (n i j : ℕ) (hs : L.Heads)
      → IsUnlinked L hs n
      → L.contents (L.list_add n i hs) j ≡ (if j == i then n ∷ L.contents hs j else L.contents hs j)
  pub contents-move :
      (n i k j : ℕ) (hs : L.Heads)
      → IsLinkedAt L hs n i
      → L.contents (L.list_move n k hs) j
        ≡ (if j == k then n ∷ remove n (L.contents hs j) else remove n (L.contents hs j))
  pub alone-single : (n i : ℕ) (hs : L.Heads) → L.contents hs i ≡ n ∷ [] → L.alone n i hs ≡ true
  pub alone-more :
      (n i : ℕ) (hs : L.Heads)
      → IsLinkedAt L hs n i
      → L.contents hs i ≢ n ∷ []
      → L.alone n i hs ≡ false
  pub empty-nil : (i : ℕ) (hs : L.Heads) → L.contents hs i ≡ [] → L.list_empty i hs ≡ true
  pub empty-cons :
      (i x : ℕ) (xs : List ℕ) (hs : L.Heads)
      → L.contents hs i ≡ x ∷ xs
      → (L.list_empty i hs ≡ false) × (L.next i hs ≡ x)
