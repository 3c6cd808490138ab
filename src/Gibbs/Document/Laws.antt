-- ===== src/Gibbs/Document/Laws.antt =====
-- core/gibbs/document.go: the topic histogram of a document is the histogram of its topics, and
-- InitializeDocument makes such a document.
use mathlib.Core.List.{append-nil, append_assoc}
use open_peacock.Prelude.{
  ℕ, suc, ◌+◌, ◌≤◌, ◌≡◌, refl, sym, ap, ◌∙◌, subst, inl, inr, false, some, List, [], ◌∷◌, ◌++◌, map,
  length, length-append, length-map, arith, if◌then◌else◌, Bool-cases,
}
use open_peacock.Prelude.Int.{
  ℤ, pos, ◌+ℤ◌, ◌-ℤ◌, ◌≤ℤ◌, ◌<ℤ◌, leb_ℤ, ltb_ℤ, eqb_ℤ, +ℤ_parts, -ℤ_parts, int_laws,
}
use open_peacock.Prelude.Word.{int32, max_int32, int32_id, IsInt32}
use open_peacock.Prelude.Run.{ok, ◌>>=◌}
use open_peacock.Map.{Map, lookup}
use open_peacock.Float64.{Rand}
use open_peacock.Hist.Sparse.{value}
use open_peacock.Hist.Ordered.{OrderedSparse, new_ordered_sparse, new_ordered_sparse_and_reserve}
use open_peacock.Hist.Ordered.Entries.{entries}
use open_peacock.Hist.Ordered.Order.{IsEntry, IsWellFormed}
use open_peacock.Hist.Ordered.Inc.{Raised, Fits, ordered_inc_correct}
use open_peacock.Gibbs.Document.{Document, draw_topic, assign_topics, initialize_document}

-- How often a topic stands in a list.
abbrev pub occurrences : ℤ → List ℤ → ℕ
occurrences t [] = 0
occurrences t (u ∷ us) = (if eqb_ℤ t u then 1 else 0) + occurrences t us

pub occurrences-append :
    (t : ℤ) (us vs : List ℤ) → occurrences t (us ++ vs) ≡ occurrences t us + occurrences t vs
occurrences-append t [] vs = omega arith
occurrences-append t (u ∷ us) vs = omega (arith, occurrences-append t us vs)

pub occurrences-le-length : (t : ℤ) (us : List ℤ) → occurrences t us ≤ length us
occurrences-le-length t [] = omega arith
occurrences-le-length t (u ∷ us) = ground (arith, occurrences-le-length t us)

-- The histogram of a list of topics.
pub record Counts (h : OrderedSparse) (topics : List ℤ) : Type 0 where
  pub well_formed : IsWellFormed h
  pub counted : (t : ℤ) → value (entries h) t ≡ pos (occurrences t topics)

-- A document has a topic for each word, and its histogram counts these topics.
pub record IsConsistent (d : Document) : Type 0 where
  pub as_many : length d.words ≡ length d.topics
  pub counts : Counts d.topic_hist d.topics

-- The ids of the known words.
abbrev pub known : List ℤ → List ℤ
known [] = []
known (id ∷ ids) = if leb_ℤ (pos 0) id then id ∷ known ids else known ids

pub value_of_entry : (es : Map ℤ) (t v : ℤ) → lookup t es ≡ some v → value es t ≡ v
unfolding value
value_of_entry es t v e = rw (value, e)

pos_add : (m n : ℕ) → pos m +ℤ pos n ≡ pos (m + n)
pos_add m n = omega int_laws

-- One more topic.
Counts-snoc :
    (h h' : OrderedSparse) (t : ℤ) (topics : List ℤ)
    → Counts h topics
    → Raised h t (pos 1) h'
    → Counts h' (topics ++ t ∷ [])
Counts-snoc h h' t topics c r = record {
  well_formed = r.well_formed;
  counted = λ j. one_more j (r.adds j) (c.counted j) (occurrences-append j topics (t ∷ []));
}
  where
    one_more :
        (j : ℤ)
        → value (entries h') j
          ≡ (if eqb_ℤ j t then value (entries h) j +ℤ pos 1 else value (entries h) j)
        → value (entries h) j ≡ pos (occurrences j topics)
        → occurrences j (topics ++ t ∷ []) ≡ occurrences j topics + occurrences j (t ∷ [])
        → value (entries h') j ≡ pos (occurrences j (topics ++ t ∷ []))
    one_more j p q r = elim (Bool-cases (eqb_ℤ j t)) [
      | inl e ↦ (rw e at p) ∙ ap (λ x. x +ℤ pos 1) q ∙ pos_add _ 1 ∙ ap pos (sym (rw e at r))
      | inr e ↦ (rw e at p) ∙ q ∙ ap pos (omega (arith, rw e at r))
    ]

Counts-Fits :
    (h : OrderedSparse) (topics : List ℤ) (t n : ℤ)
    → Counts h topics
    → pos 0 ≤ℤ t
    → t <ℤ n
    → n +ℤ pos (length topics) ≤ℤ max_int32
    → Fits (entries h) t (pos 1)
Counts-Fits h topics t n c low lt room v u =
    let is : v ≡ pos (occurrences t topics) =
      sym (value_of_entry (entries h) t v u) ∙ c.counted t in
    subst (λ (x : ℤ). (x <ℤ max_int32 -ℤ t) × (x +ℤ pos 1 ≤ℤ max_int32)) (sym is)
      (fits (occurrences t topics) (occurrences-le-length t topics))
  where
    fits : (k : ℕ) → k ≤ length topics → (pos k <ℤ max_int32 -ℤ t) × (pos k +ℤ pos 1 ≤ℤ max_int32)
    fits k le = (
      omega (arith, low, lt, room, -ℤ_parts max_int32 t, +ℤ_parts n (pos (length topics))),
      omega (arith, low, lt, room, +ℤ_parts (pos k) (pos 1), +ℤ_parts n (pos (length topics))),
    )

positive : (n : ℤ) → pos 1 ≤ℤ n → leb_ℤ n (pos 0) ≡ false
positive n p = ground arith

-- Arithmetic on the room that is left for topics and counts.
module _ (n : ℤ) (k m : ℕ) (room : n +ℤ pos (k + suc m) ≤ℤ max_int32) where
  less_room : n +ℤ pos (k + m) ≤ℤ max_int32
  less_room = omega (arith, room, +ℤ_parts n (pos (k + m)), +ℤ_parts n (pos (k + suc m)))

  used : n +ℤ pos k ≤ℤ max_int32
  used = omega (arith, room, +ℤ_parts n (pos k), +ℤ_parts n (pos (k + suc m)))

  next : n +ℤ pos (k + 1 + m) ≤ℤ max_int32
  next = omega (arith, room, +ℤ_parts n (pos (k + 1 + m)), +ℤ_parts n (pos (k + suc m)))

module _ (t n : ℤ) (k : ℕ) (low : pos 0 ≤ℤ t) (high : t <ℤ n) (room : n +ℤ pos k ≤ℤ max_int32) where
  in_range : t ≤ℤ max_int32
  in_range = omega (arith, low, high, room, +ℤ_parts n (pos k))

  entry : IsEntry (t, pos 1)
  entry = (low, in_range, omega arith, omega arith)

  is_int32 : IsInt32 t
  is_int32 = fits t low in_range
    where
      fits : (t : ℤ) → pos 0 ≤ℤ t → t ≤ℤ max_int32 → IsInt32 t
      fits t h m = ground arith

module _ {F : Type 0} (rand : Rand F) where
  open rand use {State, intn, intn-range}

  -- The loop of InitializeDocument from a consistent document on.
  assign_topics-IsConsistent :
      (n : ℤ) (ids : List ℤ) (d : Document) (rng : State)
      → pos 1 ≤ℤ n
      → n +ℤ pos (length d.topics + length ids) ≤ℤ max_int32
      → IsConsistent d
      → (d' : Document) × (rng' : State) × (assign_topics rand n ids d rng ≡ ok (d', rng'))
        × IsConsistent d'
        × (d'.words ≡ d.words ++ known ids)
  unfolding assign_topics draw_topic
  assign_topics-IsConsistent n [] d rng p room c = (d, rng, refl, c, sym (append-nil d.words))
  assign_topics-IsConsistent n (id ∷ ids) d rng p room c = elim (Bool-cases (leb_ℤ (pos 0) id)) [
    | inr q ↦
        let (d', rng', run, c', ws) =
          assign_topics-IsConsistent n ids d rng p (less_room n (length d.topics) (length ids) room)
            c in
        (d', rng', rw (assign_topics, q) run, c', rw q ws)
    | inl q ↦
        let t = (intn n rng).0 in
        let (low, high) = intn-range n rng p in
        let here = used n (length d.topics) (length ids) room in
        let (h', run, raised) =
          ordered_inc_correct d.topic_hist t (pos 1) c.counts.well_formed
            (entry t n (length d.topics) low high here)
            (Counts-Fits d.topic_hist d.topics t n c.counts low high here) in
        let t_is : int32 t ≡ t = int32_id t (is_int32 t n (length d.topics) low high here) in
        let d₁ : Document = record {
          topic_hist = h';
          words = d.words ++ id ∷ [];
          topics = d.topics ++ int32 t ∷ [];
        } in
        let c₁ : IsConsistent d₁ = record {
          as_many =
              length-append d.words (id ∷ [])
              ∙ ap (λ k. k + 1) c.as_many
              ∙ sym (length-append d.topics (int32 t ∷ []));
          counts = rw t_is (Counts-snoc d.topic_hist h' t d.topics c.counts raised);
        } in
        let (d', rng', run', c', ws) =
          assign_topics-IsConsistent n ids d₁ (intn n rng).1 p
            (rw (length-append d.topics (int32 t ∷ []))
              (next n (length d.topics) (length ids) room))
            c₁ in
        (
          d',
          rng',
          rw (assign_topics, q, draws n rng p, ◌>>=◌, run) run',
          c',
          rw q (ws ∙ append_assoc d.words (id ∷ []) (known ids)),
        )
  ]
    where
      draws : (n : ℤ) (rng : State) → pos 1 ≤ℤ n → draw_topic rand n rng ≡ ok (intn n rng)
      draws n rng p = rw (draw_topic, positive n p)

empty-Counts : Counts new_ordered_sparse []
unfolding new_ordered_sparse entries value lookup
empty-Counts = record {
  well_formed = record { same_length = refl; is_map = tt; valid = tt; descending = tt };
  counted = λ t. refl;
}

-- When there is a topic, and the number of topics and of words together is at most the largest int32,
-- InitializeDocument returns a document with the ids of the known words in their order, a topic for
-- each of them, and the histogram of these topics.
pub initialize_document-IsConsistent :
    {F W : Type 0} (rand : Rand F) (words : List W) (id : W → ℤ) (n : ℤ) (rng : Rand.State rand)
    → pos 1 ≤ℤ n
    → n +ℤ pos (length words) ≤ℤ max_int32
    → (d : Document) × (rng' : Rand.State rand) × (initialize_document rand words id n rng
        ≡ ok (d, rng'))
      × IsConsistent d
      × (d.words ≡ known (map id words))
unfolding initialize_document new_ordered_sparse_and_reserve new_ordered_sparse
initialize_document-IsConsistent rand words id n rng p room =
    let empty : Document = record { topic_hist = new_ordered_sparse; words = []; topics = [] } in
    let (d, rng', run, c, ws) =
      assign_topics-IsConsistent rand n (map id words) empty rng p
        (rw (length-map words id) (less_start n (length words) room))
        (record { as_many = refl; counts = empty-Counts }) in
    (d, rng', rw (initialize_document, reserves (length words), ◌>>=◌) run, c, ws)
  where
    reserves : (k : ℕ) → new_ordered_sparse_and_reserve (pos k) ≡ ok new_ordered_sparse
    reserves k = rw (new_ordered_sparse_and_reserve, not_negative k)
      where
        not_negative : (k : ℕ) → ltb_ℤ (pos k) (pos 0) ≡ false
        not_negative k = ground arith

    less_start : (n : ℤ) (k : ℕ) → n +ℤ pos k ≤ℤ max_int32 → n +ℤ pos (0 + k) ≤ℤ max_int32
    less_start n k h = omega (arith, h, +ℤ_parts n (pos (0 + k)), +ℤ_parts n (pos k))
