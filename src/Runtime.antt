-- ===== src/Runtime.antt =====
-- What the program uses of Go's run time and standard library without implementing it: the order in
-- which `range` visits a map, `sort.Sort`, and `container/heap`. They are arguments of the
-- definitions that use them.
use mathlib.Core.List.{Permᴰ}
use open_peacock.Prelude.{ℕ, ◌≡◌, Bool, some, List, [], ◌∷◌, ◌++◌, length, get_elem?, set}
use open_peacock.Prelude.Int.{ℤ, pos}
use open_peacock.Prelude.Run.{Run, ok}
use open_peacock.Map.{Map}

pub record Runtime : Type 1 where
  -- The entries of a map in the order of a `range` loop: each entry once.
  pub range : (V : Type 0) → Map V → Map V
  pub range-perm : (V : Type 0) (m : Map V) → Permᴰ m (range V m)
  -- `sort.Sort` on a slice whose `Less` is `less`: at least a rearrangement.
  pub sort : (A : Type 0) → (A → A → Bool) → List A → List A
  pub sort-perm : (A : Type 0) (less : A → A → Bool) (l : List A) → Permᴰ l (sort A less l)

-- `heap.Interface`, the methods that `container/heap` calls, on a slice.
pub record HeapMethods (A : Type 0) : Type 0 where
  pub len : List A → ℤ
  pub less_at : List A → ℤ → ℤ → Run Bool
  pub swap_at : List A → ℤ → ℤ → Run (List A)
  pub push : A → List A → List A
  pub pop : List A → Run (A × List A)

-- What the documentation asks of these methods: Less compares and Swap exchanges the elements with two
-- indices, Push adds an element at index Len(), and Pop removes and returns the one at Len() - 1.
pub record IsHeapInterface {A : Type 0} (m : HeapMethods A) : Type 0 where
  pub counts : (l : List A) → m.len l ≡ pos (length l)
  pub compares :
      (l : List A) (i j : ℕ) (x y : A)
      → get_elem? l i ≡ some x
      → get_elem? l j ≡ some y
      → (b : Bool) × (m.less_at l (pos i) (pos j) ≡ ok b)
  pub exchanges :
      (l : List A) (i j : ℕ) (x y : A)
      → get_elem? l i ≡ some x
      → get_elem? l j ≡ some y
      → m.swap_at l (pos i) (pos j) ≡ ok (set (set l i y) j x)
  pub appends : (x : A) (l : List A) → m.push x l ≡ l ++ x ∷ []
  pub removes : (x : A) (l : List A) → m.pop (l ++ x ∷ []) ≡ ok (x, l)

-- `container/heap` with the methods of a slice that are as its documentation asks: Push adds the
-- element, and Pop takes one from a heap that is not empty.
pub record Heaps : Type 1 where
  pub push : (A : Type 0) → HeapMethods A → A → List A → Run (List A)
  pub push-perm :
      (A : Type 0) (m : HeapMethods A) (x : A) (l : List A)
      → IsHeapInterface m
      → (l' : List A) × (push A m x l ≡ ok l') × Permᴰ (x ∷ l) l'
  pub pop : (A : Type 0) → HeapMethods A → List A → Run (A × List A)
  pub pop-perm :
      (A : Type 0) (m : HeapMethods A) (x : A) (l : List A)
      → IsHeapInterface m
      → (y : A) × (l' : List A) × (pop A m (x ∷ l) ≡ ok (y, l')) × Permᴰ (x ∷ l) (y ∷ l')
