-- ===== src/Srv/Loader.antt =====
-- srv/loader_service.go: a loader: its start, and Init, which initializes the documents of a shard
-- and sends the counts to the aggregators.
use open_peacock.Prelude.{
  ℕ, inl, inr, ◌||◌, Option, none, some, List, [], ◌∷◌, length, get_elem?, map, String,
  if◌then◌else◌,
}
use open_peacock.Prelude.Int.{ℤ, pos, ltb_ℤ, to_index}
use open_peacock.Prelude.Run.{Run, ok, ◌>>=◌, or_panic}
use open_peacock.Map.{Map}
use open_peacock.Runtime.{Runtime}
use open_peacock.Float64.{Float64, Rand}
use open_peacock.Hist.Interface.{Hist}
use open_peacock.Gibbs.Model.{Model, new_model}
use open_peacock.Gibbs.Document.{initialize_document, apply_to_model}
use open_peacock.Gibbs.Sharder.{new_sharder, shard_model}
use open_peacock.Gibbs.Vocab.{Vocabulary, new_vocabulary, load, id}
use open_peacock.Srv.Config.{Config, Squad, loader_id}
use open_peacock.Srv.World.{World}
use open_peacock.Srv.Connect.{Clients, connect_to, close_all}
use open_peacock.Srv.Aggregator.{Start, unknown_address, failed, serving}

pub record Loader (F : Type 0) : Type 0 where
  pub cfg : Config F
  pub coord : String
  pub me : String
  pub squad : Squad
  pub samplers : List (Option String)

module _ {F : Type 0} (w : World F) where
  open w use {
    State, Error, dial, call, listen, encode_document, split, init_aggregator, parallel_for,
  }

  -- registerLoader
  unfoldable pub register : String → String → State → Option Error × State
  register coord loader s =
      let (e, s') = dial coord s in
      elim e [ some x ↦ (some x, s') | none ↦ call coord "Coordinator.RegisterLoader" loader s' ]

  -- RunLoader up to the wait for the end.
  unfoldable pub run_loader :
      Config F → String → String → State → Run (Start Error (Loader F) × State)
  unfolding register
  run_loader c coord loader s = loader_id c coord loader >>= λ (sid, lid).
      if ltb_ℤ sid (pos 0) || ltb_ℤ lid (pos 0)
      then ok (unknown_address, s)
      else (or_panic (to_index sid) >>= λ n. or_panic (get_elem? c.squads n) >>= λ squad.
          connect_to w squad.samplers s >>= λ (r, s₁). elim r [
            | inl x ↦ ok (failed x, s₁)
            | inr clients ↦
                let (e, s₂) = listen loader s₁ in
                elim e [
                  | some x ↦ ok (failed x, s₂)
                  | none ↦
                      (let (e', s₃) = register coord loader s₂ in
                        let l : Loader F = record {
                          cfg = c;
                          coord = coord;
                          me = loader;
                          squad = squad;
                          samplers = clients;
                        } in
                        elim e' [ some x ↦ ok (failed x, s₃) | none ↦ ok (serving l, s₃) ])
                ]
          ])

  -- The closure that sends a shard to its aggregator.
  unfoldable pub send_shard :
      Clients w → List (Option (Map Hist)) → ℤ → State → Run (Option Error × State)
  send_shard aggregators shards i s = or_panic (to_index i) >>= λ n.
      or_panic (get_elem? aggregators n) >>= λ c.
      or_panic c >>= λ a. or_panic (get_elem? shards n) >>= λ m. ok (init_aggregator a m s)

  -- The last part of Init: the histograms of the model, one shard for each aggregator.
  unfoldable pub send_model : Config F → Model F → State → Run (Option Error × State)
  unfolding send_shard
  send_model c m s = connect_to w c.aggregators s >>= λ (r, s₁). elim r [
    | inl x ↦ ok (some x, s₁)
    | inr aggregators ↦ new_sharder (pos (length aggregators)) >>= λ sharder.
        shard_model sharder m.word_topic_hists >>= λ shards.
        parallel_for State (pos 0) (pos (length aggregators)) (pos 1)
          (send_shard aggregators shards) s₁
        >>= λ (e, s₂). close_all w aggregators s₂ >>= λ (_, s₃). ok (e, s₃)
  ]

  module _ (rand : Rand F) where
    -- The loop of Init over the lines of the shard, with the name of the output file.
    unfoldable pub load_lines :
        Vocabulary
        → ℤ
        → String
        → List String
        → Model F
        → Rand.State rand
        → State
        → Run (Option Error × Model F × State)
    load_lines v topics out [] m rng s = ok (none, m, s)
    load_lines v topics out (line ∷ lines) m rng s =
        initialize_document rand (split line " ") (λ t. (id v t).0) topics rng >>= λ (d, rng').
        apply_to_model d m >>= λ m'.
        let (e, s') = encode_document out d s in
        elim e [ some x ↦ ok (some x, m', s') | none ↦ load_lines v topics out lines m' rng' s' ]

module _ (go : Runtime) (fl : Float64) (w : World (Float64.F fl)) (rand : Rand (Float64.F fl))
    (hash : String → ℕ) (source : String → Rand.State rand) where
  open fl use {F}
  open w use {State, Error, join, iteration_name, create, scan_file, fields}

  -- Init with the input shard, the vocabulary and the error of each scan read.
  unfoldable pub init_shard_file :
      Config F
      → String
      → List String
      → Option Error
      → Vocabulary
      → State
      → Run (Option Error × State)
  unfolding load_lines send_model
  init_shard_file c shard lines e v s =
      new_model go fl c.num_topics (pos (length v.tokens)) c.topic_prior c.word_prior >>= λ m.
      load_lines w rand v c.num_topics (join (join c.job_dir (iteration_name (pos 0))) shard) lines
        m (source shard) s
      >>= λ (x, m', s'). elim x [
        | some y ↦ ok (some y, s')
        | none ↦ elim e [ some y ↦ ok (some y, s') | none ↦ send_model w c m' s' ]
      ]

  -- Init. The name in the messages is read from the first squad, which panics if there is none.
  unfoldable pub init_loader_shard : Loader F → String → State → Run (Option Error × State)
  unfolding init_shard_file
  init_loader_shard l shard s = or_panic (get_elem? l.cfg.squads 0) >>= λ q.
      or_panic (get_elem? q.loaders 0) >>= λ me. elim (scan_file s (join l.cfg.corpus_dir shard)) [
        | inl x ↦ ok (some x, s)
        | inr (lines, e) ↦
            let (e₁, s₁) = create (join (join l.cfg.job_dir (iteration_name (pos 0))) shard) s in
            elim e₁ [
              | some x ↦ ok (some x, s₁)
              | none ↦ elim (scan_file s₁ l.cfg.vocab_file) [
                | inl x ↦ ok (some x, s₁)
                | inr (vocab, e₂) ↦
                    let (e₃, v) = load go hash new_vocabulary (map fields vocab) e₂ in
                    elim e₃ [
                      | some x ↦ ok (some x, s₁)
                      | none ↦ init_shard_file l.cfg shard lines e v s₁
                    ]
              ]
            ]
      ]
