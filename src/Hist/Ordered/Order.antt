-- ===== src/Hist/Ordered/Order.antt =====
-- The invariant of an OrderedSparse, and one entry put between the others.
use mathlib.Core.List.{Permᴰ}
use mathlib.Core.List.Permᴰ
use open_peacock.Prelude.{
  ◌≡◌, refl, sym, ◌∙◌, inl, inr, none, some, [], ◌∷◌, arith, length, length-map, if◌then◌else◌,
  Bool-cases,
}
use open_peacock.Prelude.Int.{ℤ, pos, ◌≤ℤ◌, ltb_ℤ, eqb_ℤ}
use open_peacock.Prelude.Word.{max_int32}
use open_peacock.Map.{Map, lookup, IsMap}
use open_peacock.Map.Laws.{Perm-lookup, IsSame}
use open_peacock.Hist.Sparse.{value}
use open_peacock.Hist.Ordered.{OrderedSparse}
use open_peacock.Hist.Ordered.Entries.{
  entries, of_entries, entries-of_entries, rev_append, rev_append-perm,
}
use open_peacock.Hist.Ordered.Moves.{rise, drift}

abbrev pub All : (ℤ × ℤ → Type 0) → Map ℤ → Type 0
All P [] = Unit
All P (e ∷ es) = P e × All P es

abbrev pub AllLe : ℤ → Map ℤ → Type 0
AllLe c = All (λ e. e.1 ≤ℤ c)

-- The counts fall along the list.
abbrev pub IsDescending : Map ℤ → Type 0
IsDescending [] = Unit
IsDescending (e ∷ es) = AllLe e.1 es × IsDescending es

-- A topic that is not negative, with a positive int32 count.
abbrev pub IsEntry : ℤ × ℤ → Type 0
IsEntry e = (pos 0 ≤ℤ e.0) × (e.0 ≤ℤ max_int32) × (pos 1 ≤ℤ e.1) × (e.1 ≤ℤ max_int32)

-- The two arrays have one length, no topic stands twice, every entry is a topic with a positive
-- count, and the counts are in descending order.
pub record IsWellFormed (o : OrderedSparse) : Type 0 where
  pub same_length : length o.topics ≡ length o.counts
  pub is_map : IsMap (entries o)
  pub valid : All IsEntry (entries o)
  pub descending : IsDescending (entries o)

module _ (P : ℤ × ℤ → Type 0) where
  All-rev_append : (r l : Map ℤ) → All P r → All P l → All P (rev_append r l)
  All-rev_append [] l p q = q
  All-rev_append (a ∷ r) l p q = All-rev_append r (a ∷ l) p.1 (p.0, q)

  All-parts : (r l : Map ℤ) → All P (rev_append r l) → All P r × All P l
  All-parts [] l h = (tt, h)
  All-parts (a ∷ r) l h = let (p, q) = All-parts r (a ∷ l) h in ((q.0, p), q.1)

  pub All-suffix : (r l : Map ℤ) → All P (rev_append r l) → All P l
  All-suffix r l h = (All-parts r l h).1

  pub All-insert :
      (r l : Map ℤ) (x : ℤ × ℤ) → P x → All P (rev_append r l) → All P (rev_append r (x ∷ l))
  All-insert r l x p h = let (a, b) = All-parts r l h in All-rev_append r (x ∷ l) a (p, b)

  pub All-remove :
      (r l : Map ℤ) (x : ℤ × ℤ) → All P (rev_append r (x ∷ l)) → P x × All P (rev_append r l)
  All-remove r l x h = let (a, b) = All-parts r (x ∷ l) h in (b.0, All-rev_append r l a b.1)

pub AllLe-mono : (c d : ℤ) (es : Map ℤ) → c ≤ℤ d → AllLe c es → AllLe d es
AllLe-mono c d [] h p = tt
AllLe-mono c d (e ∷ es) h p = (omega (arith, p.0), AllLe-mono c d es h p.1)

pub IsDescending-suffix : (r l : Map ℤ) → IsDescending (rev_append r l) → IsDescending l
IsDescending-suffix [] l h = h
IsDescending-suffix (a ∷ r) l h = (IsDescending-suffix r (a ∷ l) h).1

-- The rest behind a prefix may be replaced by one with no larger counts.
IsDescending-replace :
    (r l m : Map ℤ)
    → IsDescending (rev_append r l)
    → IsDescending m
    → ((c : ℤ) → AllLe c l → AllLe c m)
    → IsDescending (rev_append r m)
IsDescending-replace [] l m h d le = d
IsDescending-replace (a ∷ r) l m h d le =
    let here = IsDescending-suffix r (a ∷ l) h in
    IsDescending-replace r (a ∷ l) (a ∷ m) h (le a.1 here.0, d) λ c p. (p.0, le c p.1)

pub IsDescending-remove :
    (r l : Map ℤ) (x : ℤ × ℤ) → IsDescending (rev_append r (x ∷ l)) → IsDescending (rev_append r l)
IsDescending-remove r l x h =
    IsDescending-replace r (x ∷ l) l h (IsDescending-suffix r (x ∷ l) h).1 λ c p. p.1

-- The nearest entry of a reversed prefix has at least the count `c`.
abbrev pub HeadGe : ℤ → Map ℤ → Type 0
HeadGe c [] = Unit
HeadGe c (z ∷ r) = c ≤ℤ z.1

-- An entry is no larger than the one before it.
pub IsDescending-head :
    (r l : Map ℤ) (x : ℤ × ℤ) → IsDescending (rev_append r (x ∷ l)) → HeadGe x.1 r
IsDescending-head [] l x h = tt
IsDescending-head (z ∷ r) l x h = (IsDescending-suffix r (z ∷ x ∷ l) h).0.0

pub IsDescending-insert :
    (r l : Map ℤ) (x : ℤ × ℤ)
    → IsDescending (rev_append r l)
    → HeadGe x.1 r
    → AllLe x.1 l
    → IsDescending (rev_append r (x ∷ l))
IsDescending-insert [] l x h p q = (q, h)
IsDescending-insert (z ∷ r) l x h p q =
    let here = IsDescending-suffix r (z ∷ l) h in
    IsDescending-replace r (z ∷ l) (z ∷ x ∷ l) h ((p, here.0), (q, here.1))
      λ c a. (a.0, (omega (arith, a.0, p), a.1))

-- Where the two loops stop, the entry fits.
pub rise_fits :
    (r : Map ℤ) (x : ℤ × ℤ) (l : Map ℤ)
    → AllLe x.1 l
    → HeadGe x.1 (rise r x l).0 × AllLe x.1 (rise r x l).1
unfolding rise
rise_fits [] x l h = (tt, h)
rise_fits (z ∷ r) x l h = elim (Bool-cases (ltb_ℤ z.1 x.1)) [
  | inl q ↦ rw q (rise_fits r x (z ∷ l) (ground (arith, q), h))
  | inr q ↦ rw q (ground (arith, q), h)
]

pub drift_fits :
    (r : Map ℤ) (x : ℤ × ℤ) (l : Map ℤ)
    → IsDescending l
    → HeadGe x.1 r
    → HeadGe x.1 (drift r x l).0 × AllLe x.1 (drift r x l).1
unfolding drift
drift_fits r x [] d h = (h, tt)
drift_fits r x (z ∷ l) d h = elim (Bool-cases (ltb_ℤ x.1 z.1)) [
  | inl q ↦ rw q (drift_fits (z ∷ r) x l d.1 (ground (arith, q)))
  | inr q ↦ rw q (h, (ground (arith, q), AllLe-mono z.1 x.1 l (ground (arith, q)) d.0))
]

insert_perm : (r l : Map ℤ) (x : ℤ × ℤ) → Permᴰ (x ∷ rev_append r l) (rev_append r (x ∷ l))
insert_perm [] l x = Permᴰ.cons refl (Permᴰ.refl l)
insert_perm (a ∷ r) l x =
    Permᴰ.trans (insert_perm r (a ∷ l) x)
      (rev_append-perm r (x ∷ a ∷ l) (a ∷ x ∷ l) (Permᴰ.swap refl refl))

-- An entry of a new topic put anywhere.
pub insert_entry :
    (r l : Map ℤ) (x : ℤ × ℤ)
    → IsMap (rev_append r l)
    → lookup x.0 (rev_append r l) ≡ none
    → IsSame (x ∷ rev_append r l) (rev_append r (x ∷ l))
insert_entry r l x m h = Perm-lookup (insert_perm r l x) (h, m)

-- A map seen as one entry and the others.
pub remove_entry :
    (r l : Map ℤ) (x : ℤ × ℤ)
    → IsMap (rev_append r (x ∷ l))
    → IsSame (rev_append r (x ∷ l)) (x ∷ rev_append r l)
remove_entry r l x m = Perm-lookup (Permᴰ.symm (insert_perm r l x)) m

pub value_of_lookup :
    (m n : Map ℤ) (j k v : ℤ)
    → lookup j m ≡ (if eqb_ℤ j k then some v else lookup j n)
    → value m j ≡ (if eqb_ℤ j k then v else value n j)
unfolding value
value_of_lookup m n j k v h = ground (arith, h)

-- An entry of a new topic between a prefix and a rest that fit around it.
module _ (r l : Map ℤ) (x : ℤ × ℤ) (unique : IsMap (rev_append r l))
    (fresh : lookup x.0 (rev_append r l) ≡ none) where
  pub placed_value :
      (k : ℤ)
      → value (rev_append r (x ∷ l)) k ≡ (if eqb_ℤ k x.0 then x.1 else value (rev_append r l) k)
  placed_value k =
      value_of_lookup (rev_append r (x ∷ l)) (rev_append r l) k x.0 x.1
        (unfold lookup in (insert_entry r l x unique fresh).1 k)

  pub placed-IsWellFormed :
      All IsEntry (rev_append r l)
      → IsDescending (rev_append r l)
      → IsEntry x
      → HeadGe x.1 r
      → AllLe x.1 l
      → IsWellFormed (of_entries (rev_append r (x ∷ l)))
  placed-IsWellFormed valid ordered entry near far =
      let es = rev_append r (x ∷ l) in
      let same = entries-of_entries es in
      record {
        same_length = length-map es (λ e. e.0) ∙ sym (length-map es (λ e. e.1));
        is_map = rw same (insert_entry r l x unique fresh).0;
        valid = rw same (All-insert IsEntry r l x entry valid);
        descending = rw same (IsDescending-insert r l x ordered near far);
      }
