-- ===== src/Hist/Ordered/Entries.antt =====
-- The two arrays of an OrderedSparse as one list of entries, and arrays around an index.
use mathlib.Core.List.{Permᴰ}
use native.Mathlib.Nat.{add-zero, zero-add}
use native.Mathlib.Numerals.{add-one}
use open_peacock.Prelude.{
  ℕ, suc, ◌+◌, ◌≡◌, refl, sym, ap, ◌∙◌, inl, inr, true, false, none, some, List, [], ◌∷◌, ◌++◌, map,
  arith, length, length-append, get_elem?, set, take, Bool-cases,
}
use open_peacock.Prelude.Int.{ℤ, eqb_ℤ, eqb→eq}
use open_peacock.Map.{Map, lookup}
use open_peacock.Hist.Ordered.{OrderedSparse, find_index}

-- The entry list of two arrays of one length, and back.
unfoldable pub entries_of : List ℤ → List ℤ → Map ℤ
entries_of [] cs = []
entries_of (t ∷ ts) [] = []
entries_of (t ∷ ts) (c ∷ cs) = (t, c) ∷ entries_of ts cs

unfoldable pub entries : OrderedSparse → Map ℤ
unfolding entries_of
entries o = entries_of o.topics o.counts

abbrev pub topics_of : Map ℤ → List ℤ
topics_of = map (λ e. e.0)

abbrev pub counts_of : Map ℤ → List ℤ
counts_of = map (λ e. e.1)

abbrev pub of_entries : Map ℤ → OrderedSparse
of_entries es = record { topics = topics_of es; counts = counts_of es }

pub entries-of_entries : (es : Map ℤ) → entries (of_entries es) ≡ es
unfolding entries
entries-of_entries [] = refl
entries-of_entries (e ∷ es) = ap (◌∷◌ e) (entries-of_entries es)

topics_of-entries : (ts cs : List ℤ) → length ts ≡ length cs → topics_of (entries_of ts cs) ≡ ts
unfolding entries_of
topics_of-entries [] cs h = refl
topics_of-entries (t ∷ ts) [] h = absurd (omega arith)
topics_of-entries (t ∷ ts) (c ∷ cs) h = ap (◌∷◌ t) (topics_of-entries ts cs (omega arith))

counts_of-entries : (ts cs : List ℤ) → length ts ≡ length cs → counts_of (entries_of ts cs) ≡ cs
unfolding entries_of
counts_of-entries [] [] h = refl
counts_of-entries [] (c ∷ cs) h = absurd (omega arith)
counts_of-entries (t ∷ ts) [] h = absurd (omega arith)
counts_of-entries (t ∷ ts) (c ∷ cs) h = ap (◌∷◌ c) (counts_of-entries ts cs (omega arith))

pub of_entries-entries :
    (o : OrderedSparse) → length o.topics ≡ length o.counts → of_entries (entries o) ≡ o
unfolding entries
of_entries-entries o h = λ i. record {
  topics = topics_of-entries o.topics o.counts h i;
  counts = counts_of-entries o.topics o.counts h i;
}

shift_index : (n k : ℕ) → suc n + k ≡ n + suc k
shift_index n k = omega arith

eqb_sym : (a b : ℤ) → eqb_ℤ a b ≡ true → eqb_ℤ b a ≡ true
eqb_sym a b h = ground arith

eqb_sym_false : (a b : ℤ) → eqb_ℤ a b ≡ false → eqb_ℤ b a ≡ false
eqb_sym_false a b h = ground arith

-- `rev_append r l` is the reverse of `r` before `l`: the entry at index `length r` is the head of `l`.
module _ {ℓ} {A : Type ℓ} where
  abbrev pub rev_append : List A → List A → List A
  rev_append [] l = l
  rev_append (a ∷ r) l = rev_append r (a ∷ l)

  pub length-rev_append : (r l : List A) → length (rev_append r l) ≡ length r + length l
  length-rev_append [] l = omega arith
  length-rev_append (a ∷ r) l = omega (arith, length-rev_append r (a ∷ l))

  rev_append-snoc : (r l : List A) (a : A) → rev_append (r ++ a ∷ []) l ≡ a ∷ rev_append r l
  rev_append-snoc [] l a = refl
  rev_append-snoc (b ∷ r) l a = rev_append-snoc r (b ∷ l) a

  rev_append-rev_append :
      (es r l : List A) → rev_append (rev_append es r) l ≡ rev_append r (es ++ l)
  rev_append-rev_append [] r l = refl
  rev_append-rev_append (e ∷ es) r l = rev_append-rev_append es (e ∷ r) l

  -- An append is a prefix put back.
  pub append-rev_append : (es l : List A) → es ++ l ≡ rev_append (rev_append es []) l
  append-rev_append es l = sym (rev_append-rev_append es [] l)

  pub rev_append-perm : (r l m : List A) → Permᴰ l m → Permᴰ (rev_append r l) (rev_append r m)
  rev_append-perm [] l m p = p
  rev_append-perm (a ∷ r) l m p = rev_append-perm r (a ∷ l) (a ∷ m) (Permᴰ.cons refl p)

  take_past :
      (r l : List A) (k : ℕ) → take (length r + k) (rev_append r l) ≡ rev_append r (take k l)
  take_past [] l k = rw zero-add
  take_past (a ∷ r) l k = rw (shift_index (length r) k) (take_past r (a ∷ l) (suc k))

  get_past : (r l : List A) (k : ℕ) → get_elem? (rev_append r l) (length r + k) ≡ get_elem? l k
  get_past [] l k = rw zero-add
  get_past (a ∷ r) l k = rw (shift_index (length r) k) (get_past r (a ∷ l) (suc k))

  set_past :
      (r l : List A) (k : ℕ) (v : A)
      → set (rev_append r l) (length r + k) v ≡ rev_append r (set l k v)
  set_past [] l k v = rw zero-add
  set_past (a ∷ r) l k v = rw (shift_index (length r) k) (set_past r (a ∷ l) (suc k) v)

  pub take-rev_append : (r l : List A) → take (length r) (rev_append r l) ≡ rev_append r []
  take-rev_append r l = rw add-zero at (take_past r l 0)

  -- The entries at and behind the index.
  pub get_here : (r l : List A) (x : A) → get_elem? (rev_append r (x ∷ l)) (length r) ≡ some x
  get_here r l x = rw add-zero at (get_past r (x ∷ l) 0)

  pub set_here :
      (r l : List A) (x v : A) → set (rev_append r (x ∷ l)) (length r) v ≡ rev_append r (v ∷ l)
  set_here r l x v = rw add-zero at (set_past r (x ∷ l) 0 v)

  pub get_next :
      (r l : List A) (x y : A) → get_elem? (rev_append r (x ∷ y ∷ l)) (suc (length r)) ≡ some y
  get_next r l x y = rw add-one at (get_past r (x ∷ y ∷ l) 1)

  pub set_next :
      (r l : List A) (x y v : A)
      → set (rev_append r (x ∷ y ∷ l)) (suc (length r)) v ≡ rev_append r (x ∷ v ∷ l)
  set_next r l x y v = rw add-one at (set_past r (x ∷ y ∷ l) 1 v)

pub map-rev_append {ℓ κ} :
    {A : Type ℓ} {B : Type κ} (f : A → B) (r l : List A)
    → map f (rev_append r l) ≡ rev_append (map f r) (map f l)
map-rev_append f [] l = refl
map-rev_append f (a ∷ r) l = map-rev_append f r (a ∷ l)

-- Where the search stops: at the entry of `t`, with its count, or at the end.
pub data Search (t : ℤ) (es : Map ℤ) (i : ℕ) : Type 0 where
  found :
      (r : Map ℤ) (c : ℤ) (l : Map ℤ)
      → es ≡ rev_append r ((t, c) ∷ l)
      → i ≡ length r
      → lookup t es ≡ some c
      → Search t es i
  missing : i ≡ length es → lookup t es ≡ none → Search t es i

find_behind :
    (t : ℤ) (e : ℤ × ℤ) (es : Map ℤ) (i : ℕ)
    → eqb_ℤ t e.0 ≡ false
    → Search t es i
    → Search t (e ∷ es) (suc i)
unfolding lookup
find_behind t e es i q (found r c l h p u) =
    found (r ++ e ∷ []) c l (ap (◌∷◌ e) h ∙ sym (rev_append-snoc r ((t, c) ∷ l) e))
      (omega (arith, length-append r (e ∷ []), p)) (rw q u)
find_behind t e es i q (missing p u) = missing (ap suc p) (rw q u)

pub find_index-Search : (t : ℤ) (es : Map ℤ) → Search t es (find_index (topics_of es) t)
unfolding find_index lookup
find_index-Search t [] = missing refl refl
find_index-Search t ((x, c) ∷ es) = elim (Bool-cases (eqb_ℤ x t)) [
  | inl q ↦ let e : x ≡ t = eqb→eq x t q in rw q (found [] c es (rw e) refl (rw (eqb_sym x t q)))
  | inr q ↦ rw q (find_behind t (x, c) es _ (eqb_sym_false x t q) (find_index-Search t es))
]
