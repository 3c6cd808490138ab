-- ===== src/Srv/Master/Queue.antt =====
-- srv/master_service.go: the calls that the squads and the aggregators make of the master.
pub mod Keys
pub mod Laws
pub mod Reach
use text.Mathlib.Text.{◌==◌}
use open_peacock.Prelude.{
  ℕ, zero, suc, Bool, true, false, Option, none, some, List, [], ◌∷◌, ◌++◌, String, length,
  get_elem?, if◌then◌else◌,
}
use open_peacock.Prelude.Int.{ℤ, pos, negsuc, leb_ℤ, to_index}
use open_peacock.Prelude.Word.{int64}
use open_peacock.Prelude.Run.{Run, ok, panic, fatal, ◌>>=◌, or_panic}
use open_peacock.Hist.Visit.{Visitor}
use open_peacock.Hist.Dense
use open_peacock.Hist.Dense.{Dense, new_dense}
use open_peacock.Srv.Config.{Config, ConfigError, validate}
use open_peacock.Srv.Task.{Task, equal}
use open_peacock.Srv.Process.{launch_squads, kill_squads}
use open_peacock.Srv.World.{World}
use open_peacock.Srv.Master.Iterations.{
  Master, MasterError, failed, invalid_config, invalid_reporter, task_not_in_working_queue,
  no_new_tasks, initialize_tasks,
}

-- `t, ok := m.working[k]`
unfoldable pub find_task : String → List (String × Task) → Option Task
find_task k [] = none
find_task k (e ∷ m) = if k == e.0 then some e.1 else find_task k m

-- `delete(m.working, k)`
unfoldable pub delete_task : String → List (String × Task) → List (String × Task)
delete_task k [] = []
delete_task k (e ∷ m) = if k == e.0 then delete_task k m else e ∷ delete_task k m

-- `m.working[k] = t`
unfoldable pub put_task : String → Task → List (String × Task) → List (String × Task)
unfolding delete_task
put_task k t m = (k, t) ∷ delete_task k m

-- What the loop of CompleteTask finds: whether the first task that is equal to `did` belongs to the
-- reporter; none if there is no such task.
unfoldable pub first_equal : Task → List (String × Task) → Option Bool
first_equal did [] = none
first_equal did (e ∷ m) = if equal e.1 did then some (did.coord == e.0) else first_equal did m

-- The closure of aggregateGlobalHists: `gh.Inc(t, int(c))`.
unfoldable pub inc_global : {E : Type 0} → Visitor Dense E
inc_global t c gh = Dense.inc gh t c >>= λ gh'. ok (gh', none)

module _ {F : Type 0} (w : World F) where
  -- What a call leaves: its error, the caller's task, the master and the outside state.
  pub record Reply : Type 0 where
    pub error : Option (MasterError (World.Error w))
    pub task : Task
    pub master : Master F
    pub state : World.State w

  -- NewMaster
  unfoldable pub new_master :
      Config F
      → World.State w
      → Run (Option (MasterError (World.Error w)) × Option (Master F) × World.State w)
  new_master c s = validate c >>= λ (e, d). elim e [
    | some x ↦ ok (some (invalid_config x), none, s)
    | none ↦
        initialize_tasks w
          (record { cfg = d; pending = []; working = []; aggregators = []; iteration = negsuc 0 }) s
        >>= λ (e', m, s'). elim e' [ some x ↦ ok (some x, none, s') | none ↦ ok (none, some m, s') ]
  ]

  -- `m.aggregators[i]`
  abbrev pub client : List String → ℤ → Run String
  client clients i = or_panic (to_index i) >>= λ n. or_panic (get_elem? clients n)

  -- The first closure of aggregateGlobalHists: one aggregator's histogram is added to `gh`.
  unfoldable pub add_global :
      List String
      → ℤ
      → ℤ
      → Dense × World.State w
      → Run (Option (World.Error w) × (Dense × World.State w))
  unfolding inc_global
  add_global clients num_topics i (gh, s) = new_dense num_topics >>= λ h. client clients i >>= λ a.
      let (e, r) = w.get_global_hist a h s in
      elim e [
        | some x ↦ ok (some x, (gh, r.1))
        | none ↦ Dense.for_each {E = World.Error w} inc_global r.0 gh >>= λ (gh', e').
            ok (none, (gh', r.1))
      ]

  -- aggregateGlobalHists
  unfoldable pub aggregate_global_hists :
      Master F → World.State w → Run (Option (World.Error w) × World.State w)
  unfolding add_global
  aggregate_global_hists m s =
      let n = pos (length m.aggregators) in
      new_dense m.cfg.num_topics >>= λ gh.
      w.parallel_for (Dense × World.State w) (pos 0) n (pos 1)
        (add_global m.aggregators m.cfg.num_topics) (gh, s)
      >>= λ (e, r). elim e [
        | some x ↦ ok (some x, r.1)
        | none ↦
            w.parallel_for (World.State w) (pos 0) n (pos 1)
              (λ i s'. client m.aggregators i >>= λ a. ok (w.set_global_hist a r.0 s')) r.1
      ]

  -- saveModel
  unfoldable pub save_model :
      Master F → World.State w → Run (Option (World.Error w) × World.State w)
  save_model m s =
      w.parallel_for (World.State w) (pos 0) (pos (length m.aggregators)) (pos 1)
        (λ i s'. client m.aggregators i >>= λ a. ok (w.save a m.iteration i m.cfg.num_v_shards s'))
        s

  -- The end of distributeTask: the first pending task, if there is any, goes to the coordinator.
  unfoldable pub assign_task : Master F → World.State w → String → Task → Run Reply
  unfolding put_task
  assign_task m s coordinator task = elim m.pending [
    | [] ↦ ok (record { error = some no_new_tasks; task = task; master = m; state = s })
    | p ∷ ps ↦ or_panic p >>= λ t.
        let t' : Task = record t { coord = coordinator } in
        ok (record {
          error = none;
          task = t';
          master = record m { pending = ps; working = put_task coordinator t' m.working };
          state = s;
        })
  ]

  -- distributeTask; the error of initializeTasks is dropped.
  unfoldable pub distribute_task : Master F → World.State w → String → Task → Run Reply
  unfolding assign_task aggregate_global_hists save_model
  distribute_task m s coordinator task = elim m.pending [
    | p ∷ ps ↦ assign_task m s coordinator task
    | [] ↦ aggregate_global_hists m s >>= λ (e, s₁). elim e [
      | some x ↦ ok (record { error = some (failed x); task = task; master = m; state = s₁ })
      | none ↦ save_model m s₁ >>= λ (e', s₂). elim e' [
        | some x ↦ ok (record { error = some (failed x); task = task; master = m; state = s₂ })
        | none ↦ initialize_tasks w m s₂ >>= λ (e₃, m', s₃). assign_task m' s₃ coordinator task
      ]
    ]
  ]

  -- RegisterSquad
  unfoldable pub register_squad : Master F → World.State w → String → Task → Run Reply
  unfolding distribute_task find_task
  register_squad m s coordinator task = elim (find_task coordinator m.working) [
    | some t ↦ ok (record { error = none; task = t; master = m; state = s })
    | none ↦ distribute_task m s coordinator task
  ]

  -- CompleteTask: `ret` is the caller's reply, which a new task overwrites.
  unfoldable pub complete_task : Master F → World.State w → Task → Task → Run Reply
  unfolding distribute_task first_equal delete_task
  complete_task m s did ret = elim (first_equal did (w.range m.working)) [
    | none ↦
        ok (record { error = some task_not_in_working_queue; task = ret; master = m; state = s })
    | some mine ↦
        if mine
        then distribute_task (record m { working = delete_task did.coord m.working }) s did.coord
            ret
        else ok (record { error = some invalid_reporter; task = ret; master = m; state = s })
  ]

  -- RegisterAggregator, which holds the mutex `register` and not, as the other two calls, `schedule`
  unfoldable pub register_aggregator :
      Master F
      → World.State w
      → String
      → Option (MasterError (World.Error w)) × Master F × World.State w
  register_aggregator m s aggr =
      let (e, s₁) = w.dial aggr s in
      elim e [
        | some x ↦ (some (failed x), m, s₁)
        | none ↦
            (let m' : Master F = record m { aggregators = m.aggregators ++ aggr ∷ [] } in
              if leb_ℤ (pos (length m.cfg.aggregators)) (pos (length m'.aggregators))
              then (let (x, s₂) = launch_squads w m.cfg s₁ in
                  elim x [
                    | some y ↦ (some (failed y), m', (kill_squads w m.cfg s₂).1)
                    | none ↦ (none, m', s₂)
                  ])
              else (none, m', s₁))
      ]
