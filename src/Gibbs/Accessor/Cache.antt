-- ===== src/Gibbs/Accessor/Cache.antt =====
-- core/gibbs/model_accessor.go: the cache does not change a distribution.
use open_peacock.Prelude.{
  ℕ, zero, suc, ◌≡◌, refl, sym, ap, ◌∙◌, subst, ◌⊎◌, inl, inr, Option, none, some, List, [], ◌∷◌,
  length, get_elem?, set, get_elem?-set_self, get_elem?-set_ne, ℕ_discrete, ◌<◌, replicate, arith,
  Bool-cases, Option-cases,
}
use open_peacock.Prelude.Int.{ℤ, pos, negsuc, leb_ℤ, to_index}
use open_peacock.Prelude.Run.{Run, ok, panic, ◌>>=◌, or_panic, returned, ok_injective}
use open_peacock.Runtime.{Runtime, Heaps}
use open_peacock.Float64.{Float64}
use open_peacock.Hist.Dense
use open_peacock.Gibbs.Model.{Model, num_topics}
use open_peacock.Gibbs.Sampler.{load_at, store_at}
use open_peacock.Gibbs.Sampler.Access.{load_at_found}
use open_peacock.Gibbs.Accessor.{
  ModelAccessor, WordFreq, drain, select_words, smoothing_dist, build_smoothing_only,
  cumulate_posterior, fresh_dist, word_topic_dist, cache_capacity, fill_cache, new_model_accessor,
}

List-cases : {A : Type 0} (xs : List A) → (xs ≡ []) ⊎ ((x : A) × (r : List A) × (xs ≡ x ∷ r))
List-cases [] = inl refl
List-cases (x ∷ r) = inr (x, r, refl)

load_at_negative :
    {A : Type 0} (xs : List A) (i : ℕ) {x : A} → load_at xs (negsuc i) ≡ ok x → panic ≡ ok x
unfolding load_at
load_at_negative xs i e = e

module _ (go : Runtime) (fl : Float64) where
  open fl use {F, of_int}

  -- The distribution of a word, without an accessor.
  abbrev pub direct : Model F → ℤ → Run (List F)
  direct m token = smoothing_dist go fl m >>= λ base. or_panic (to_index (num_topics m)) >>= λ n.
      cumulate_posterior go fl m (Dense.copy (replicate n (of_int (pos 0))) base) token

  -- What an accessor has kept is what the model gives.
  pub record IsFaithful (m : Model F) (a : ModelAccessor F) : Type 0 where
    pub same_model : a.model ≡ m
    pub kept : (a.smoothing_only ≡ []) ⊎ (smoothing_dist go fl m ≡ ok a.smoothing_only)
    pub cached :
        (i : ℕ) (d : List F)
        → get_elem? a.word_topic_dists i ≡ some (some d)
        → direct m (pos i) ≡ ok d

  base_lem :
      (m : Model F) (xs base : List F)
      → (xs ≡ []) ⊎ (smoothing_dist go fl m ≡ ok xs)
      → elim xs [ [] ↦ smoothing_dist go fl m | x ∷ r ↦ ok (x ∷ r) ] ≡ ok base
      → smoothing_dist go fl m ≡ ok base
  base_lem m [] base k e = e
  base_lem m (x ∷ xs) base (inl k) e = cc
  base_lem m (x ∷ xs) base (inr k) e = k ∙ e

  abbrev accessor : Model F → List (Option (List F)) → List F → ModelAccessor F
  accessor m ds xs = record { model = m; word_topic_dists = ds; smoothing_only = xs }

  -- A distribution that is not read from the cache is the direct one, and keeps the smoothing part.
  fresh_dist-direct :
      (m : Model F) (ds : List (Option (List F))) (xs d : List F) (a' : ModelAccessor F) (token : ℤ)
      → (xs ≡ []) ⊎ (smoothing_dist go fl m ≡ ok xs)
      → fresh_dist go fl (accessor m ds xs) token ≡ ok (d, a')
      → (direct m token ≡ ok d)
        × ((base : List F) × (smoothing_dist go fl m ≡ ok base) × (accessor m ds base ≡ a'))
  unfolding fresh_dist build_smoothing_only
  fresh_dist-direct m ds xs d a' token k e =
      let ((dist, a₁), p, e₁) = returned (build_smoothing_only go fl (accessor m ds xs)) _ e in
      let (base, q, e₂) =
        returned (elim xs [ [] ↦ smoothing_dist go fl m | x ∷ r ↦ ok (x ∷ r) ]) _ p in
      let (n, q₁, e₃) = returned (or_panic (to_index (num_topics m))) _ e₂ in
      let same = ok_injective e₃ in
      let is_accessor : accessor m ds base ≡ a₁ = ap (λ x. x.1) same in
      let (d₁, q₂, e₄) = returned (cumulate_posterior go fl a₁.model dist token) _ e₁ in
      let same' = ok_injective e₄ in
      let smooth = base_lem m xs base k q in
      let posterior : cumulate_posterior go fl m (Dense.copy (replicate n (of_int (pos 0))) base)
            token
          ≡ ok d₁ =
        subst
          (λ (x : List F × ModelAccessor F). cumulate_posterior go fl x.1.model x.0 token ≡ ok d₁)
          (sym same) q₂ in
      (
        rw (smooth, ◌>>=◌, q₁) (posterior ∙ ap ok (ap (λ x. x.0) same')),
        (base, smooth, is_accessor ∙ ap (λ x. x.1) same'),
      )

  in_parts :
      (m : Model F) (a : ModelAccessor F)
      → a.model ≡ m
      → a ≡ accessor m a.word_topic_dists a.smoothing_only
  in_parts m a p = ap (λ x. accessor x a.word_topic_dists a.smoothing_only) p

  word_topic_dist-parts :
      (m : Model F) (ds : List (Option (List F))) (xs d : List F) (a' : ModelAccessor F) (token : ℤ)
      → IsFaithful m (accessor m ds xs)
      → word_topic_dist go fl (accessor m ds xs) token ≡ ok (d, a')
      → (direct m token ≡ ok d) × IsFaithful m a'
  unfolding word_topic_dist
  word_topic_dist-parts m ds xs d a' token f e =
      let (x, p, e₁) = returned (load_at ds token) _ e in
      elim (Option-cases x) [
        | inl q ↦
            let (is, (base, smooth, same)) =
              fresh_dist-direct m ds xs d a' token f.kept (rw q at e₁) in
            (
              is,
              subst (λ (y : ModelAccessor F). IsFaithful m y) same
                  (record { same_model = refl; kept = inr smooth; cached = f.cached }),
            )
        | inr (y, q) ↦
            let same = ok_injective (rw q at e₁) in
            (
              hit token (p ∙ ap ok q) ∙ ap ok (ap (λ z. z.0) same),
              subst (λ (z : ModelAccessor F). IsFaithful m z) (ap (λ z. z.1) same) f,
            )
      ]
    where
      hit : (token : ℤ) {y : List F} → load_at ds token ≡ ok (some y) → direct m token ≡ ok y
      hit (pos i) p = f.cached i _ (load_at_found ds i p)
      hit (negsuc i) p = cc (load_at_negative ds i p)

  -- A distribution that a faithful accessor returns, from its cache or computed, is the one that is
  -- computed from the model directly, and the accessor stays faithful.
  pub word_topic_dist-IsFaithful :
      (m : Model F) (a a' : ModelAccessor F) (token : ℤ) (d : List F)
      → IsFaithful m a
      → word_topic_dist go fl a token ≡ ok (d, a')
      → (direct m token ≡ ok d) × IsFaithful m a'
  word_topic_dist-IsFaithful m a a' token d f e =
      let p = in_parts m a f.same_model in
      word_topic_dist-parts m a.word_topic_dists a.smoothing_only d a' token
        (subst (λ (x : ModelAccessor F). IsFaithful m x) p f)
        (subst (λ (x : ModelAccessor F). word_topic_dist go fl x token ≡ ok (d, a')) p e)

  stored :
      (m : Model F) (ds ds' : List (Option (List F))) (xs d : List F) (token : ℤ)
      → IsFaithful m (accessor m ds xs)
      → direct m token ≡ ok d
      → store_at ds token (some d) ≡ ok ds'
      → IsFaithful m (accessor m ds' xs)
  unfolding store_at
  stored m ds ds' xs d (negsuc i) f q e = cc
  stored m ds ds' xs d (pos i) f q e =
      let (y, p, e₁) = returned (load_at ds (pos i)) _ e in
      subst (λ (x : List (Option (List F))). IsFaithful m (accessor m x xs)) (ok_injective e₁)
        (record {
          same_model = refl;
          kept = f.kept;
          cached = λ j c g. elim (ℕ_discrete i j) [
            | yes r ↦
                let here : some (some d) ≡ some (some c) =
                  sym (get_elem?-set_self ds i (some d) (below ds i (load_at_found ds i p)))
                  ∙ ap (get_elem? (set ds i (some d))) r
                  ∙ g in
                subst (λ k. direct m (pos k) ≡ ok c) r (q ∙ cc)
            | no n ↦ f.cached j c (sym (get_elem?-set_ne ds (some d) n) ∙ g)
          ];
        })
    where
      below :
          (ds : List (Option (List F))) (i : ℕ) {y : Option (List F)}
          → get_elem? ds i ≡ some y
          → i < length ds
      below [] i p = cc
      below (x ∷ ds) zero p = omega arith
      below (x ∷ ds) (suc i) p = omega (arith, below ds i p)

  fill_cache-IsFaithful :
      (m : Model F) (words : List WordFreq) (ds : List (Option (List F))) (xs : List F)
      (a' : ModelAccessor F)
      → IsFaithful m (accessor m ds xs)
      → fill_cache go fl words (accessor m ds xs) ≡ ok a'
      → IsFaithful m a'
  unfolding fill_cache
  fill_cache-IsFaithful m [] ds xs a' f e =
      subst (λ (x : ModelAccessor F). IsFaithful m x) (ok_injective e) f
  fill_cache-IsFaithful m (wf ∷ words) ds xs a' f e =
      let ((d, a₁), p, e₁) = returned (fresh_dist go fl (accessor m ds xs) wf.word) _ e in
      let (ds', p₁, e₂) = returned (store_at a₁.word_topic_dists wf.word (some d)) _ e₁ in
      let (is, (base, smooth, same)) = fresh_dist-direct m ds xs d a₁ wf.word f.kept p in
      fill_cache-IsFaithful m words ds' base a'
        (stored m ds ds' base d wf.word
          (record { same_model = refl; kept = inr smooth; cached = f.cached }) is
          (subst (λ (x : ModelAccessor F). store_at x.word_topic_dists wf.word (some d) ≡ ok ds')
            (sym same) p₁))
        (subst
          (λ (x : ModelAccessor F).
            fill_cache go fl words (record x { word_topic_dists = ds' }) ≡ ok a')
          (sym same) e₂)

  -- The accessor that NewModelAccessor returns is faithful to the model, whatever the size of the
  -- cache.
  pub new_model_accessor-IsFaithful :
      (heap : Heaps) (m : Model F) (size : ℤ) (a : ModelAccessor F)
      → new_model_accessor go fl heap m size ≡ ok a
      → IsFaithful m a
  unfolding new_model_accessor
  new_model_accessor-IsFaithful heap m size a e =
      let (cached, p, e₁) = returned (cache_capacity go fl m size) _ e in
      elim (Bool-cases (leb_ℤ cached (pos 0))) [
        | inl q ↦ subst (λ (x : ModelAccessor F). IsFaithful m x) (ok_injective (rw q at e₁)) empty
        | inr q ↦
            let (h, p₁, e₂) =
              returned (select_words go heap cached 0 m.word_topic_hists []) _ (rw q at e₁) in
            let (words, p₂, e₃) = returned (drain go heap (length h) h) _ e₂ in
            fill_cache-IsFaithful m words (replicate (length m.word_topic_hists) none) [] a empty e₃
      ]
    where
      nothing : (n i : ℕ) {d : List F} → get_elem? (replicate n none) i ≡ some (some d) → ⊥
      nothing zero i p = cc
      nothing (suc n) zero p = cc
      nothing (suc n) (suc i) p = nothing n i p

      empty : IsFaithful m (accessor m (replicate (length m.word_topic_hists) none) [])
      empty = record {
        same_model = refl;
        kept = inl refl;
        cached = λ i d p. absurd (nothing (length m.word_topic_hists) i p);
      }
