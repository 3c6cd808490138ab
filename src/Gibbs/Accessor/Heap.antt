-- ===== src/Gibbs/Accessor/Heap.antt =====
-- core/gibbs/model_accessor.go: the methods of minHeap are as `container/heap` needs them.
use open_peacock.Prelude.{
  ℕ, suc, ◌-◌, ◌≡◌, refl, sym, ap, ◌∙◌, some, List, [], ◌∷◌, ◌++◌, length, get_elem?, set, take,
  get_elem?-set_self, get_elem?-set_ne, ℕ_discrete, length-append, arith,
}
use open_peacock.Prelude.Int.{pos, ◌-ℤ◌, ltb_ℤ, int_laws}
use open_peacock.Prelude.Run.{ok, ◌>>=◌}
use open_peacock.Runtime.{IsHeapInterface}
use open_peacock.Gibbs.Sampler.Access.{load_at-some, store_at-some, in_bounds}
use open_peacock.Gibbs.Accessor.{
  WordFreq, heap_len, heap_less, heap_swap, heap_push, heap_pop, min_heap,
}

module _ {A : Type 0} where
  last_elem : (l : List A) (x : A) → get_elem? (l ++ x ∷ []) (length l) ≡ some x
  last_elem [] x = refl
  last_elem (y ∷ l) x = last_elem l x

  take_init : (l : List A) (x : A) → take (length l) (l ++ x ∷ []) ≡ l
  take_init [] x = refl
  take_init (y ∷ l) x = ap (λ r. y ∷ r) (take_init l x)

heap_swap-set :
    (l : List WordFreq) (i j : ℕ) (x y : WordFreq)
    → get_elem? l i ≡ some x
    → get_elem? l j ≡ some y
    → heap_swap l (pos i) (pos j) ≡ ok (set (set l i y) j x)
unfolding heap_swap
heap_swap-set l i j x y e f =
    let (z, g) = still in
    rw (load_at-some l j y f, load_at-some l i x e, ◌>>=◌, store_at-some l i x y e)
      (store_at-some (set l i y) j z x g)
  where
    still : (z : WordFreq) × (get_elem? (set l i y) j ≡ some z)
    still = elim (ℕ_discrete i j) [
      | yes r ↦
          (y, ap (get_elem? (set l i y)) (sym r) ∙ get_elem?-set_self l i y (in_bounds l i x e))
      | no n ↦ (y, get_elem?-set_ne l y n ∙ f)
    ]

heap_pop-append : (x : WordFreq) (l : List WordFreq) → heap_pop (l ++ x ∷ []) ≡ ok (x, l)
unfolding heap_pop
heap_pop-append x l =
    let one_less : suc (length l) - 1 ≡ length l = omega arith in
    let size : length (l ++ x ∷ []) ≡ suc (length l) = length-append l (x ∷ []) ∙ omega arith in
    let last : pos (suc (length l)) -ℤ pos 1 ≡ pos (length l) = omega int_laws in
    rw (size, last, load_at-some (l ++ x ∷ []) (length l) x (last_elem l x), ◌>>=◌)
      (ap (λ r. ok (x, r)) (ap (λ n. take n (l ++ x ∷ [])) one_less ∙ take_init l x))

pub min_heap-IsHeapInterface : IsHeapInterface min_heap
unfolding heap_len heap_less heap_push heap_pop heap_swap
min_heap-IsHeapInterface = record {
  counts = λ l. refl;
  compares = λ l i j x y e f.
      (ltb_ℤ x.freq y.freq, rw (load_at-some l i x e, load_at-some l j y f, ◌>>=◌));
  exchanges = heap_swap-set;
  appends = λ x l. refl;
  removes = heap_pop-append;
}
