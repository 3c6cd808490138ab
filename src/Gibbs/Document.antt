-- ===== src/Gibbs/Document.antt =====
-- core/gibbs/document.go: the words of a document that are in the vocabulary, a topic for each, and
-- the histogram of these topics.
pub mod Laws
pub mod Apply
use open_peacock.Prelude.{Bool, List, [], ◌∷◌, ◌++◌, length, map}
use open_peacock.Prelude.Int.{ℤ, pos, leb_ℤ}
use open_peacock.Prelude.Word.{int32}
use open_peacock.Prelude.Run.{Run, ok, panic, ◌>>=◌, ◌>>◌, panic_if}
use open_peacock.Float64.{Rand}
use open_peacock.Hist.Ordered
use open_peacock.Hist.Ordered.{OrderedSparse, load, new_ordered_sparse_and_reserve}
use open_peacock.Gibbs.Model.{Model, inc_word, inc_global}

pub record Document : Type 0 where
  pub topic_hist : OrderedSparse
  pub words : List ℤ
  pub topics : List ℤ

-- Len
unfoldable pub len : Document → ℤ
len d = pos (length d.words)

module _ {F : Type 0} (rand : Rand F) where
  open rand use {State, intn}

  -- `rng.Intn(n)` panics unless n is positive.
  unfoldable pub draw_topic : ℤ → State → Run (ℤ × State)
  draw_topic n rng = do panic_if (leb_ℤ n (pos 0)); ok (intn n rng)

  -- The loop of InitializeDocument; `ids` are the vocabulary's ids of the words, negative for an
  -- unknown word.
  unfoldable pub assign_topics : ℤ → List ℤ → Document → State → Run (Document × State)
  unfolding draw_topic
  assign_topics num_topics [] d rng = ok (d, rng)
  assign_topics num_topics (id ∷ ids) d rng = elim (leb_ℤ (pos 0) id) [
    | Bool.true ↦ draw_topic num_topics rng >>= λ (topic, rng').
        Ordered.inc d.topic_hist topic (pos 1) >>= λ h.
        assign_topics num_topics ids
          (record {
            topic_hist = h;
            words = d.words ++ id ∷ [];
            topics = d.topics ++ int32 topic ∷ [];
          })
          rng'
    | Bool.false ↦ assign_topics num_topics ids d rng
  ]

  -- InitializeDocument, with the vocabulary's Id as an argument.
  unfoldable pub initialize_document :
      {W : Type 0} → List W → (W → ℤ) → ℤ → State → Run (Document × State)
  unfolding assign_topics
  initialize_document words id num_topics rng =
      new_ordered_sparse_and_reserve (pos (length words)) >>= λ h.
      assign_topics num_topics (map id words) (record { topic_hist = h; words = []; topics = [] })
        rng

module _ {F : Type 0} where
  -- The loop of ApplyToModel over the words and their topics.
  unfoldable pub apply_words : List ℤ → List ℤ → Model F → Run (Model F)
  apply_words [] topics m = ok m
  apply_words (w ∷ words) [] m = panic
  apply_words (w ∷ words) (t ∷ topics) m = inc_word m w t (pos 1) >>= λ m'.
      inc_global m' t (pos 1) >>= λ m''. apply_words words topics m''

  -- ApplyToModel
  unfoldable pub apply_to_model : Document → Model F → Run (Model F)
  unfolding apply_words
  apply_to_model d m = apply_words d.words d.topics m
