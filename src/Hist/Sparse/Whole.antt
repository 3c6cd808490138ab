-- ===== src/Hist/Sparse/Whole.antt =====
-- The Sparse methods that walk whole maps: Clear, Add, Equal and Clone give the same result in
-- whatever order `range` visits the entries.
use open_peacock.Prelude.{
  ◌≡◌, ◌↔◌, refl, sym, ap, ◌∙◌, inl, inr, Bool, true, false, none, some, [], ◌∷◌, arith,
  if◌then◌else◌, ==_iff, length, Bool-cases,
}
use open_peacock.Prelude.Int.{ℤ, pos, ◌+ℤ◌, eqb_ℤ, eqb→eq, eqb_refl, +ℤ_zero}
use open_peacock.Prelude.Word.{IsInt32, int32_id, add32}
use open_peacock.Map.{lookup, insert, erase, IsMap}
use open_peacock.Map.Laws.{lookup-insert, lookup-erase, lookup_congr, Perm-lookup}
use open_peacock.Map.Size.{lookup-nil, same_of_within, length_of_same}
use open_peacock.Runtime.{Runtime}
use open_peacock.Hist.Sparse.{
  Sparse, new_sparse, value, delete_keys, add_entries, all_equal, copy_entries, clear, add, equal,
  clone,
}
use open_peacock.Hist.Sparse.Laws.{value-insert}

-- Whether a key has an entry.
has : ℤ → Sparse → Bool
has j es = elim (lookup j es) [ none ↦ false | some _ ↦ true ]

lookup-delete_keys :
    (j : ℤ) (es s : Sparse) → lookup j (delete_keys es s) ≡ (if has j es then none else lookup j s)
unfolding delete_keys has lookup
lookup-delete_keys j [] s = refl
lookup-delete_keys j ((k, v) ∷ es) s =
    ground (arith, lookup-delete_keys j es (erase k s), lookup-erase j k s)

all_equal_sound :
    (es o : Sparse) → all_equal es o ≡ true → (j v : ℤ) → lookup j es ≡ some v → lookup j o ≡ some v
unfolding all_equal lookup
all_equal_sound [] o h j v e = cc
all_equal_sound ((k, w) ∷ es) o h j v e =
    ground (arith, all_equal_sound es o (ground (arith, h)) j v, lookup_congr j k o, h, e)

all_equal_complete :
    (es o : Sparse)
    → IsMap es
    → ((j v : ℤ) → lookup j es ≡ some v → lookup j o ≡ some v)
    → all_equal es o ≡ true
unfolding all_equal lookup
all_equal_complete [] o m h = refl
all_equal_complete ((k, w) ∷ es) o m h =
    rw (h k w (rw (eqb_refl k)), eqb_refl w)
      (all_equal_complete es o m.1 λ j v e. h j v (ground (arith, lookup_congr j k es, m.0, e)))

lookup-empty : (j : ℤ) → lookup j new_sparse ≡ none
unfolding lookup new_sparse
lookup-empty j = refl

pub value_same : (m n : Sparse) (j : ℤ) → lookup j m ≡ lookup j n → value m j ≡ value n j
unfolding value
value_same m n j h = ground (arith, h)

module _ (go : Runtime) where
  range_same :
      (s : Sparse)
      → IsMap s
      → IsMap (go.range ℤ s) × ((k : ℤ) → lookup k (go.range ℤ s) ≡ lookup k s)
  range_same s m = Perm-lookup (go.range-perm ℤ s) m

  -- Clear empties a map with distinct keys, in whatever order `range` visits them.
  pub sparse_clear_lem : (s : Sparse) → IsMap s → clear go s ≡ []
  unfolding clear has
  sparse_clear_lem s m =
      lookup-nil _ λ k. ground (arith, lookup-delete_keys k (go.range ℤ s) s, (range_same s m).1 k)

  -- Equal decides whether two maps with distinct keys have the same entries, in whatever order
  -- `range` visits them.
  pub sparse_equal_iff :
      (s o : Sparse)
      → IsMap s
      → IsMap o
      → (equal go s o ≡ true) ↔ ((k : ℤ) → lookup k o ≡ lookup k s)
  unfolding equal
  sparse_equal_iff s o ms mo = (sound, complete)
    where
      sound : equal go s o ≡ true → (k : ℤ) → lookup k o ≡ lookup k s
      sound h = same_of_within s o ms mo (ground (arith, h)) λ k v e.
          all_equal_sound (go.range ℤ s) o (ground (arith, h)) k v ((range_same s ms).1 k ∙ e)

      complete : ((k : ℤ) → lookup k o ≡ lookup k s) → equal go s o ≡ true
      complete h =
          rw (length_of_same s o ms mo h, (==_iff (length o) (length o)).1 refl)
            (all_equal_complete (go.range ℤ s) o (range_same s ms).0
              λ k v e. h k ∙ sym ((range_same s ms).1 k) ∙ e)

value-cons :
    (j k w : ℤ) (es : Sparse) → value ((k, w) ∷ es) j ≡ (if eqb_ℤ j k then w else value es j)
unfolding value lookup
value-cons j k w es = ground arith

pub value_absent : (j : ℤ) (es : Sparse) → lookup j es ≡ none → value es j ≡ pos 0
unfolding value
value_absent j es h = ground (arith, h)

module _ (s : Sparse) (k w : ℤ) (es : Sparse) where
  abbrev absorb : Sparse
  absorb = insert k (add32 (value s k) w) s

  absorb_step :
      IsMap ((k, w) ∷ es)
      → IsInt32 (value s k +ℤ w)
      → (j : ℤ) → value absorb j +ℤ value es j ≡ value s j +ℤ value ((k, w) ∷ es) j
  absorb_step m fits j = elim (Bool-cases (eqb_ℤ j k)) [
    | inl q ↦
        let e : j ≡ k = eqb→eq j k q in
        rw
          (
            value-insert j k (add32 (value s k) w) s,
            value-cons j k w es,
            q,
            int32_id _ fits,
            e,
            value_absent k es m.0,
          )
          (+ℤ_zero (value s k +ℤ w))
    | inr q ↦ rw (value-insert j k (add32 (value s k) w) s, value-cons j k w es, q)
  ]

value-add_entries :
    (es s : Sparse)
    → IsMap es
    → ((j : ℤ) → IsInt32 (value s j +ℤ value es j))
    → (j : ℤ) → value (add_entries es s) j ≡ value s j +ℤ value es j
unfolding add_entries new_sparse
value-add_entries [] s m fits j =
    rw (value_absent j new_sparse (lookup-empty j)) (sym (+ℤ_zero (value s j)))
value-add_entries ((k, w) ∷ es) s m fits j =
    let here : IsInt32 (value s k +ℤ w) = rw (value-cons k k w es, eqb_refl k) at (fits k) in
    let step = absorb_step s k w es m here in
    value-add_entries es (absorb s k w es) m.1 (λ i. rw (step i) (fits i)) j ∙ step j

-- When the keys of the summand are distinct and every sum is an int32, the result of Add has at
-- each topic the sum of the two counts, in whatever order `range` visits the summand.
pub sparse_add_lem :
    (go : Runtime) (s o : Sparse)
    → IsMap o
    → ((k : ℤ) → IsInt32 (value s k +ℤ value o k))
    → (k : ℤ) → value (add go s o) k ≡ value s k +ℤ value o k
unfolding add
sparse_add_lem go s o m fits k =
    let same = range_same go o m in
    let same_value = λ (j : ℤ). value_same (go.range ℤ o) o j (same.1 j) in
    value-add_entries (go.range ℤ o) s same.0 (λ j. rw (same_value j) (fits j)) k
    ∙ ap (λ (x : ℤ). value s k +ℤ x) (same_value k)

lookup-copy_entries :
    (j : ℤ) (es n : Sparse)
    → IsMap es
    → lookup j (copy_entries es n) ≡ (elim (lookup j es) [ none ↦ lookup j n | some v ↦ some v ])
unfolding copy_entries lookup
lookup-copy_entries j [] n m = refl
lookup-copy_entries j ((k, w) ∷ es) n m = ground (
  arith,
  lookup-copy_entries j es (insert k w n) m.1,
  lookup-insert j k w n,
  lookup_congr j k es,
  m,
)

-- Clone of a map with distinct keys has the same entry at every key, in whatever order `range`
-- visits them.
pub sparse_clone_lem :
    (go : Runtime) (s : Sparse) → IsMap s → (k : ℤ) → lookup k (clone go s) ≡ lookup k s
unfolding clone new_sparse
sparse_clone_lem go s m k =
    let same = range_same go s m in
    ground (arith, lookup-copy_entries k (go.range ℤ s) [] same.0, same.1 k, lookup-empty k)
