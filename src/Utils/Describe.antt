-- ===== src/Utils/Describe.antt =====
-- core/utils/desc_topics.go: the most frequent words of each topic, and cmd/interpreter/interpreter.go:
-- the topics of a text with their descriptions.
use open_peacock.Prelude.{
  ◌⊎◌, inl, inr, Option, none, some, List, [], ◌∷◌, ◌++◌, replicate, take, String, if◌then◌else◌,
}
use open_peacock.Prelude.Int.{ℤ, pos, ◌+ℤ◌, ltb_ℤ, to_index}
use open_peacock.Prelude.Word.{int32}
use open_peacock.Prelude.Run.{Run, ok, ◌>>=◌, ◌>>◌, panic_if, or_panic}
use open_peacock.Runtime.{Runtime}
use open_peacock.Float64.{Float64, Rand}
use open_peacock.Hist.Visit.{Visitor}
use open_peacock.Hist.Ordered
use open_peacock.Hist.Interface
use open_peacock.Gibbs.Model.{Model, num_topics, get_top_words}
use open_peacock.Gibbs.Sampler.{load_at, store_at}
use open_peacock.Gibbs.Vocab.{Vocabulary, token}
use open_peacock.Gibbs.Interpreter.{Interpreter, Prob, InterpretError, interpret}

pub record TokenDesc : Type 0 where
  pub word : String
  pub count : ℤ

pub record TopicDesc : Type 0 where
  pub topic_id : ℤ
  pub nt : ℤ
  pub tokens : List TokenDesc

-- The closure over the words of a topic, on the index and the tokens.
unfoldable pub describe_word : {E : Type 0} → Vocabulary → ℤ → Visitor (ℤ × List TokenDesc) E
describe_word v max t count (i, tokens) =
    if ltb_ℤ i max
    then (token v (int32 t) >>= λ w.
        ok ((i +ℤ pos 1, tokens ++ record { word = w; count = count } ∷ []), none))
    else ok ((i +ℤ pos 1, tokens), none)

module _ (go : Runtime) {F : Type 0} where
  -- The closure of DescribeTopics for one topic: a topic without words panics.
  unfoldable pub describe_topic : Model F → Vocabulary → ℤ → ℤ → Run TopicDesc
  unfolding describe_word
  describe_topic m v max topic = get_top_words go m topic >>= λ top. or_panic top >>= λ h.
      Interface.at m.global_topic_hist topic >>= λ n.
      panic_if (ltb_ℤ max (pos 0))
      >> (Ordered.for_each {E = Unit {0}} (describe_word v max) h (pos 0, [])
          >>= λ ((_, tokens), _). ok (record { topic_id = topic; nt = n; tokens = tokens }))

  -- DescribeTopics: `parallel.ForN` from the first topic on acts on the slice of descriptions.
  unfoldable pub describe_topics :
      ((S : Type 0) → ℤ → ℤ → ℤ → (ℤ → S → Run S) → S → Run S)
      → Model F
      → Vocabulary
      → ℤ
      → Run (List (Option TopicDesc))
  unfolding describe_topic
  describe_topics for_n m v max = or_panic (to_index (num_topics m)) >>= λ n.
      for_n (List (Option TopicDesc)) (pos 0) (num_topics m) (pos 1)
        (λ topic descs. describe_topic m v max topic >>= λ d. store_at descs topic (some d))
        (replicate n none)

-- Topic, a row of the answer
pub record Topic (F : Type 0) : Type 0 where
  pub weight : F
  pub desc : Option TopicDesc

-- The loop that fills the answer.
unfoldable pub rows : {F : Type 0} → List (Option TopicDesc) → List (Prob F) → Run (List (Topic F))
rows descs [] = ok []
rows descs (p ∷ dist) = load_at descs p.topic >>= λ d.
    rows descs dist >>= λ ts. ok (record { weight = p.prob; desc = d } ∷ ts)

-- The answer of the handler to a segmented text: ten topics at most, after 150 iterations with a
-- burn-in of 50.
unfoldable pub answer_query :
    (go : Runtime)
    → (fl : Float64) → (rand : Rand (Float64.F fl)) → (List String → Rand.State rand)
    → Interpreter (Float64.F fl)
    → List (Option TopicDesc)
    → List String
    → Run (InterpretError ⊎ List (Topic (Float64.F fl)))
unfolding rows
answer_query go fl rand source intr descs text =
    interpret go fl rand source intr text (pos 50) (pos 150) >>= λ r. elim r [
      | inl e ↦ ok (inl e)
      | inr dist ↦ rows descs (take 10 dist) >>= λ ts. ok (inr ts)
    ]
