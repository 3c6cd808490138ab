-- ===== src/Srv/Aggregator.antt =====
-- srv/aggregator_service.go: an aggregator: its start, and the calls on its part of the model.
use text.Mathlib.Text.{◌==◌}
use open_peacock.Prelude.{ℕ, ◌⊎◌, inl, inr, Option, none, some, length, map, String, if◌then◌else◌}
use open_peacock.Prelude.Int.{ℤ, pos, ltb_ℤ}
use open_peacock.Prelude.Run.{Run, ok, panic, fatal, ◌>>=◌}
use open_peacock.Map.{Map}
use open_peacock.Runtime.{Runtime}
use open_peacock.Float64.{Float64}
use open_peacock.Hist.Dense.{Dense}
use open_peacock.Hist.Interface.{Hist, dense, sparse, ordered}
use open_peacock.Gibbs.Model.{Model, accumulate, new_model}
use open_peacock.Gibbs.Vocab.{Vocabulary, new_vocabulary, load}
use open_peacock.Srv.Config.{Config, aggregator_id}
use open_peacock.Srv.World.{World}

pub record Aggregator (F : Type 0) : Type 0 where
  pub cfg : Config F
  pub me : String
  pub model : Model F

module _ {F : Type 0} where
  -- Init
  unfoldable pub init_model : Runtime → Aggregator F → Map Hist → Run (Aggregator F)
  init_model go a hists = accumulate go a.model hists >>= λ m. ok (record a { model = m })

  -- GetGlobalHist: the type assertion panics unless the global histogram is dense.
  unfoldable pub get_global : Aggregator F → Run Dense
  get_global a = elim a.model.global_topic_hist [
    | dense d ↦ ok d
    | sparse s ↦ panic
    | ordered o ↦ panic
  ]

  -- SetGlobalHist
  unfoldable pub set_global : Aggregator F → Dense → Aggregator F
  set_global a gh = record a { model = record a.model { global_topic_hist = dense gh } }

  module _ (w : World F) where
    open w use {State, Error, join, iteration_name, shard_name, create, encode_model}

    -- Save: the file for the iteration and the shard.
    unfoldable pub save_shard : Aggregator F → ℤ → ℤ → ℤ → State → Option Error × State
    save_shard a iteration shard shards s =
        let p =
          join (join a.cfg.job_dir (iteration_name iteration)) (shard_name "model" shard shards) in
        let (e, s') = create p s in
        elim e [ some x ↦ (some x, s') | none ↦ encode_model p a.model s' ]

-- What becomes of a process that is started: an error, or it serves its calls.
pub data Start (E X : Type 0) : Type 0 where
  unknown_address : Start E X
  failed : E → Start E X
  serving : X → Start E X

module _ (go : Runtime) (fl : Float64) (w : World (Float64.F fl)) (hash : String → ℕ) where
  open fl use {F}
  open w use {State, Error, scan_file, fields, listen, dial, call}

  -- loadVocabulary
  unfoldable pub load_vocabulary : Config F → State → Error ⊎ Vocabulary
  load_vocabulary c s = elim (scan_file s c.vocab_file) [
    | inl x ↦ inl x
    | inr (lines, e) ↦
        let (e', v) = load go hash new_vocabulary (map fields lines) e in
        elim e' [ some x ↦ inl x | none ↦ inr v ]
  ]

  -- registerAggregator
  unfoldable pub register : Config F → String → State → Option Error × State
  register c me s =
      let (e, s') = dial c.master s in
      elim e [ some x ↦ (some x, s') | none ↦ call c.master "Master.RegisterAggregator" me s' ]

  -- RunAggregator up to the wait for the end: without a master, a failed registration is ignored.
  unfoldable pub run_aggregator :
      Config F → String → State → Run (Start Error (Aggregator F) × State)
  unfolding load_vocabulary register
  run_aggregator c addr s =
      if ltb_ℤ (aggregator_id c addr) (pos 0)
      then ok (unknown_address, s)
      else elim (load_vocabulary c s) [
        | inl x ↦ ok (failed x, s)
        | inr v ↦
            new_model go fl c.num_topics (pos (length v.tokens)) c.topic_prior c.word_prior >>= λ m.
            let (e, s₁) = listen addr s in
            elim e [
              | some x ↦ fatal
              | none ↦
                  (let a : Aggregator F = record { cfg = c; me = addr; model = m } in
                    let (e', s₂) = register c addr s₁ in
                    elim e' [
                      | none ↦ ok (serving a, s₂)
                      | some x ↦ if c.master == "" then ok (serving a, s₂) else ok (failed x, s₂)
                    ])
            ]
      ]
