-- ===== src/Train/Multi/Shard.antt =====
-- cmd/multithread/multithread.go: the goroutines that sample the shards have no data race.
use open_peacock.Prelude.{
  ℕ, suc, ◌%◌, ◌<◌, ◌≡◌, ◌≢◌, refl, sym, ap, ◌∙◌, subst, ◌⊎◌, inl, inr, Bool, false, Option, none,
  some, List, [], ◌∷◌, length, get_elem?, set, length-set, get_elem?-set_self, get_elem?-set_ne,
  arith, if◌then◌else◌, Bool-cases,
}
use open_peacock.Prelude.Int.{ℤ, pos, negsuc, ◌≤ℤ◌, ◌<ℤ◌}
use open_peacock.Prelude.Run.{ok, ◌>>=◌, or_panic, returned, ok_injective}
use open_peacock.Runtime.{Runtime, Heaps}
use open_peacock.Float64.{Float64, Rand}
use open_peacock.Gibbs.Model.{Model, clone}
use open_peacock.Gibbs.Document.{Document}
use open_peacock.Gibbs.Sampler.{
  Sampler, new_sampler, load_at, store_at, set_diff, get_diff, after_optimization,
}
use open_peacock.Gibbs.Sampler.Access.{load_at-some, load_at_found, store_at-some, in_bounds}
use open_peacock.Train.Multi.{sample_stride, sample_shard}
use open_peacock.Train.Multi.Races.{Cells, IsRaceFree}
use open_peacock.Train.Multi.Stride.{
  hits, hits-mod, sample_stride-length, sample_stride-writes, sample_stride-reads,
}

-- What the goroutines share: the documents and the diffs, and the headers of the two slices.
pub data Place : Type 0 where
  document diff : ℕ → Place
  document_count diff_count : Place

module _ (F : Type 0) where
  abbrev pub Shared : Type 0
  Shared = List Document × List (Model F)

  abbrev pub Value : Place → Type 0
  Value (Place.document k) = Option Document
  Value (Place.diff k) = Option (Model F)
  Value Place.document_count = ℕ
  Value Place.diff_count = ℕ

  abbrev pub read : (k : Place) → Shared → Value k
  read (Place.document k) s = get_elem? s.0 k
  read (Place.diff k) s = get_elem? s.1 k
  read Place.document_count s = length s.0
  read Place.diff_count s = length s.1

-- Shard `i` of `n` has every `n`-th document from document `i` on, and diff `i`.
abbrev pub owner : ℕ → Place → Option ℤ
owner n (Place.document k) = some (pos (k % n))
owner n (Place.diff k) = some (pos k)
owner n Place.document_count = none
owner n Place.diff_count = none

list_ext : {A : Type 0} (xs ys : List A) → ((k : ℕ) → get_elem? xs k ≡ get_elem? ys k) → xs ≡ ys
list_ext [] [] h = refl
list_ext [] (y ∷ ys) h = absurd (cc (h 0))
list_ext (x ∷ xs) [] h = absurd (cc (h 0))
list_ext (x ∷ xs) (y ∷ ys) h =
    let first : x ≡ y = cc (h 0) in
    ap (λ r. r ∷ xs) first ∙ ap (λ r. y ∷ r) (list_ext xs ys (λ k. h (suc k)))

pair_ext : {A B : Type 0} (x y : A × B) → x.0 ≡ y.0 → x.1 ≡ y.1 → x ≡ y
pair_ext (a, b) (c, d) p q = ap (λ r. (r, b)) p ∙ ap (λ r. (c, r)) q

pub read_covers : (F : Type 0) (s t : Shared F) → ((k : Place) → read F k s ≡ read F k t) → s ≡ t
read_covers F s t h =
    pair_ext s t (list_ext s.0 t.0 (λ k. h (Place.document k)))
      (list_ext s.1 t.1 (λ k. h (Place.diff k)))

abbrev pub shard_cells : (F : Type 0) → ℕ → Cells (List Document × List (Model F))
shard_cells F n = record {
  Cell = Place;
  Value = Value F;
  read = read F;
  owner = owner n;
  covers = read_covers F;
}

-- Both lists have the written element.
written :
    {A : Type 0} (gs ks : List A) (j k : ℕ) (g' : A) {g : A}
    → get_elem? gs j ≡ some g
    → get_elem? ks j ≡ some g
    → some (pos k) ≡ some (pos j)
    → get_elem? (set gs j g') k ≡ get_elem? (set ks j g') k
written gs ks j k g' {g} p q own =
    let same : k ≡ j = cc in
    subst (λ i. get_elem? (set gs j g') i ≡ get_elem? (set ks j g') i) (sym same)
      (get_elem?-set_self gs j g' (in_bounds gs j g p)
        ∙ sym (get_elem?-set_self ks j g' (in_bounds ks j g q)))

module _ (go : Runtime) (heap : Heaps) (fl : Float64) (rand : Rand (Float64.F fl)) where
  open fl use {F}
  open rand use {State}

  -- A goroutine that returned: what its sampler started from and ended with, and that it does the same
  -- on other documents and diffs when its sampling does and its diff is that one.
  record ShardRun (m : Model F) (b : Bool) (n : ℕ) (rng : State) (j : ℕ) (x y : Shared F)
      : Type 0 where
    before : Sampler F
    after : Sampler F
    rng' : State
    diff : Model F
    diff' : Model F
    loaded : get_elem? x.1 j ≡ some diff
    sampled : sample_stride go heap fl rand n j x.0 before rng ≡ ok (after, y.0, rng')
    stored : y.1 ≡ set x.1 j diff'
    again :
        (ts fs : List Document) (ks : List (Model F))
        → get_elem? ks j ≡ some diff
        → sample_stride go heap fl rand n j ts before rng ≡ ok (after, fs, rng')
        → sample_shard go heap fl rand m b (pos n) rng (pos j) (ts, ks) ≡ ok (fs, set ks j diff')

  shard_again :
      (m local : Model F) (b : Bool) (n : ℕ) (rng rng' : State) (j : ℕ) (s s₁ s₂ : Sampler F)
      (g g' : Model F) (ts fs : List Document) (ks : List (Model F))
      → clone go fl m ≡ ok local
      → new_sampler go fl local ≡ ok s
      → (if b then after_optimization go fl (set_diff s (some g)) else ok (set_diff s (some g)))
        ≡ ok s₁
      → or_panic (get_diff s₂) ≡ ok g'
      → get_elem? ks j ≡ some g
      → sample_stride go heap fl rand n j ts s₁ rng ≡ ok (s₂, fs, rng')
      → sample_shard go heap fl rand m b (pos n) rng (pos j) (ts, ks) ≡ ok (fs, set ks j g')
  unfolding sample_shard
  shard_again m local b n rng rng' j s s₁ s₂ g g' ts fs ks p p₁ p₃ p₅ at_j runs =
      rw (p, ◌>>=◌, p₁, load_at-some ks j g at_j, p₃, runs, p₅, store_at-some ks j g g' at_j)

  shard_run :
      (m : Model F) (b : Bool) (n : ℕ) (rng : State) (j : ℕ) (x y : Shared F)
      → sample_shard go heap fl rand m b (pos n) rng (pos j) x ≡ ok y
      → ShardRun m b n rng j x y
  unfolding sample_shard
  shard_run m b n rng j (ds, gs) (es, hs) e =
      let (local, p, e₁) = returned (clone go fl m) _ e in
      let (s, p₁, e₂) = returned (new_sampler go fl local) _ e₁ in
      let (g, p₂, e₃) = returned (load_at gs (pos j)) _ e₂ in
      let (s₁, p₃, e₄) =
        returned
          (if b then after_optimization go fl (set_diff s (some g)) else ok (set_diff s (some g))) _
          e₃ in
      let ((s₂, es₁, rng₂), p₄, e₅) = returned (sample_stride go heap fl rand n j ds s₁ rng) _ e₄ in
      let (g', p₅, e₆) = returned (or_panic (get_diff s₂)) _ e₅ in
      let (gs', p₆, e₇) = returned (store_at gs (pos j) g') _ e₆ in
      let found : get_elem? gs j ≡ some g = load_at_found gs j p₂ in
      let same : (es₁, gs') ≡ (es, hs) = ok_injective e₇ in
      record {
        before = s₁;
        after = s₂;
        rng' = rng₂;
        diff = g;
        diff' = g';
        loaded = found;
        sampled = p₄ ∙ ap (λ r. ok (s₂, r, rng₂)) (ap (λ r. r.0) same);
        stored =
            sym (ap (λ r. r.1) same)
            ∙ sym (ok_injective (sym (store_at-some gs j g g' found) ∙ p₆));
        again = λ ts fs ks. shard_again m local b n rng rng₂ j s s₁ s₂ g g' ts fs ks p p₁ p₃ p₅;
      }

  -- The calls of an iteration have no data race: the documents of two shards are different, and so are
  -- their diffs.
  pub sample_shard-IsRaceFree :
      (m : Model F) (b : Bool) (n : ℕ) (rng : State)
      → IsRaceFree (shard_cells F n) (pos 0) (pos n) (sample_shard go heap fl rand m b (pos n) rng)
  sample_shard-IsRaceFree m b n rng = record { writes_own = writes; reads_own = reads }
    where
      not_hit : (j k : ℕ) → j < n → some (pos (k % n)) ≢ some (pos j) → hits n j k ≡ false
      not_hit j k lt h = elim (Bool-cases (hits n j k)) [
        | inl e ↦ absurd (h (ap (λ r. some (pos r)) (hits-mod n j k lt e)))
        | inr e ↦ e
      ]

      writes :
          (i : ℤ) (s s' : Shared F)
          → pos 0 ≤ℤ i
          → i <ℤ pos n
          → sample_shard go heap fl rand m b (pos n) rng i s ≡ ok s'
          → (k : Place) → owner n k ≢ some i
          → read F k s' ≡ read F k s
      writes (negsuc j) s s' p q e k h = absurd (omega arith)
      writes (pos j) s s' p q e k h =
          let r = shard_run m b n rng j s s' e in
          elim k as (λ k. owner n k ≢ some (pos j) → read F k s' ≡ read F k s) [
            | Place.document k ↦ λ h.
                sample_stride-writes go heap fl rand n j s.0 s'.0 r.before r.after rng r.rng' k
                  r.sampled (not_hit j k (omega arith) h)
            | Place.diff k ↦ λ h.
                ap (λ l. get_elem? l k) r.stored
                ∙ get_elem?-set_ne s.1 r.diff' (λ same. h (ap (λ i. some (pos i)) (sym same)))
            | Place.document_count ↦ λ h.
                sample_stride-length go heap fl rand n j s.0 s'.0 r.before r.after rng r.rng'
                  r.sampled
            | Place.diff_count ↦ λ h. ap length r.stored ∙ length-set s.1 j r.diff'
          ]
            h

      reads :
          (i : ℤ) (s s' t : Shared F)
          → pos 0 ≤ℤ i
          → i <ℤ pos n
          → ((k : Place) → (owner n k ≡ none) ⊎ (owner n k ≡ some i) → read F k s ≡ read F k t)
          → sample_shard go heap fl rand m b (pos n) rng i s ≡ ok s'
          → (t' : Shared F) × (sample_shard go heap fl rand m b (pos n) rng i t ≡ ok t')
            × ((k : Place) → owner n k ≡ some i → read F k s' ≡ read F k t')
      reads (negsuc j) s s' t p q same e = absurd (omega arith)
      reads (pos j) s s' t p q same e =
          let r = shard_run m b n rng j s s' e in
          let (fs, runs, agree) =
            sample_stride-reads go heap fl rand n j s.0 t.0 s'.0 r.before r.after rng r.rng'
              (same Place.document_count (inl refl))
              (λ k h.
                same (Place.document k)
                  (inr (ap (λ r. some (pos r)) (hits-mod n j k (omega arith) h))))
              r.sampled in
          let at_j : get_elem? t.1 j ≡ some r.diff =
            sym (same (Place.diff j) (inr refl)) ∙ r.loaded in
          (
            (fs, set t.1 j r.diff'),
            r.again t.0 fs t.1 at_j runs,
            λ k own.
                elim k
                    as (λ k.
                      owner n k ≡ some (pos j) → read F k s' ≡ read F k (fs, set t.1 j r.diff')) [
                        | Place.document k ↦ λ own. agree k (same (Place.document k) (inr own))
                        | Place.diff k ↦ λ own.
                            ap (λ l. get_elem? l k) r.stored
                            ∙ written s.1 t.1 j k r.diff' r.loaded at_j own
                        | Place.document_count ↦ λ own. absurd cc
                        | Place.diff_count ↦ λ own. absurd cc
                      ]
                  own,
          )
