-- ===== src/Srv/Master/Iterations.antt =====
-- srv/master_service.go: the state of the master, the search for the last completed iteration, and
-- the creation of the tasks of the next one.
use open_peacock.Prelude.{
  ℕ, zero, suc, ◌%◌, Bool, true, false, ◌&&◌, Option, none, some, List, [], ◌∷◌, ◌++◌, String,
  if◌then◌else◌, ◌==◌,
}
use open_peacock.Prelude.Int.{ℤ, pos, negsuc, ◌+ℤ◌, ltb_ℤ}
use open_peacock.Prelude.Run.{Run, ok, panic, ◌>>=◌}
use open_peacock.Srv.Config.{Config, ConfigError}
use open_peacock.Srv.Task.{Task, new_task, init_action, gibbs_action, logll_action}
use open_peacock.Srv.World.{World, FileInfo}

-- The channel `finished` is never written. A pending task can be nil; a working one cannot. `working`
-- has distinct keys.
pub record Master (F : Type 0) : Type 0 where
  pub cfg : Config F
  pub pending : List (Option Task)
  pub working : List (String × Task)
  pub aggregators : List String
  pub iteration : ℤ

-- The errors of the master's methods, their texts aside.
pub data MasterError (E : Type 0) : Type 0 where
  failed : E → MasterError E
  invalid_config : ConfigError → MasterError E
  invalid_reporter task_not_in_working_queue no_new_tasks : MasterError E

-- `i % n` for an index
unfoldable pub index_rem : ℕ → ℤ → Run ℕ
index_rem i (pos zero) = panic
index_rem i (pos (suc n)) = ok (i % suc n)
index_rem i (negsuc n) = ok (i % suc n)

-- The loop of initializeTasks over the corpus, from index `i` on, with the variables `m.pending` and
-- `task`.
unfoldable pub group_shards :
    ℤ
    → ℤ
    → ℤ
    → ℕ
    → List FileInfo
    → List (Option Task)
    → Option Task
    → Run (List (Option Task) × Option Task)
group_shards v iteration action i [] pending task = ok (pending, task)
group_shards v iteration action i (info ∷ infos) pending task = index_rem i v >>= λ r.
    (if r == 0
      then (new_task v iteration action >>= λ t.
          ok (elim task [ some u ↦ pending ++ some u ∷ [] | none ↦ pending ], some t))
      else ok (pending, task))
    >>= λ (pending', task'). elim task' [
      | some t ↦
          group_shards v iteration action (suc i) infos pending'
            (some (record t { shards = t.shards ++ info.name ∷ [] }))
      | none ↦ panic
    ]

-- `fi >= 0 && LogllPeriod > 0 && fi % LogllPeriod == 0`
unfoldable pub is_logll_time : ℤ → ℤ → Bool
is_logll_time (pos fi) (pos (suc p)) = (fi % suc p) == 0
is_logll_time (pos fi) (pos zero) = false
is_logll_time (pos fi) (negsuc _) = false
is_logll_time (negsuc _) p = false

module _ {F : Type 0} (w : World F) where
  -- The loop of isCompletedIteration over the shards from `v` on, `count` of them.
  unfoldable pub has_models : Config F → ℤ → ℕ → ℕ → World.State w → Bool × Option (World.Error w)
  has_models cfg iteration zero v s = (true, none)
  has_models cfg iteration (suc count) v s =
      let (b, e) = w.exists s (
        w.join (w.join cfg.job_dir (w.iteration_name iteration))
          (w.shard_name "model" (pos v) cfg.num_v_shards)) in
      let rest = has_models cfg iteration count (suc v) s in
      elim e [ some x ↦ (false, some x) | none ↦ if b then rest else (false, none) ]

  unfoldable pub is_completed_iteration :
      Config F → ℤ → World.State w → Bool × Option (World.Error w)
  unfolding has_models
  is_completed_iteration cfg iteration s = elim cfg.num_v_shards [
    | pos n ↦ has_models cfg iteration n 0 s
    | negsuc _ ↦ has_models cfg iteration 0 0 s
  ]

  -- The loop of FindMostRecentCompletedIteration.
  unfoldable pub most_recent :
      Config F → List FileInfo → ℤ → World.State w → ℤ × Option (World.Error w)
  unfolding is_completed_iteration
  most_recent cfg [] max s = (max, none)
  most_recent cfg (f ∷ fs) max s =
      let iter = w.scan_number f.name in
      if f.is_dir && w.is_number f.name && ltb_ℤ max iter
      then (let (b, e) = is_completed_iteration cfg iter s in
          elim e [
            | none ↦ if b then most_recent cfg fs iter s else most_recent cfg fs max s
            | some x ↦ (negsuc 0, some x)
          ])
      else most_recent cfg fs max s

  unfoldable pub find_most_recent_completed_iteration :
      Config F → World.State w → ℤ × Option (World.Error w)
  unfolding most_recent
  find_most_recent_completed_iteration cfg s =
      let (is, e) = w.list s cfg.job_dir in
      elim e [ some x ↦ (negsuc 0, some x) | none ↦ most_recent cfg is (negsuc 0) s ]

  -- The end of initializeTasks: the corpus becomes tasks.
  unfoldable pub create_tasks :
      Master F
      → ℤ
      → ℤ
      → World.State w
      → Run (Option (MasterError (World.Error w)) × Master F × World.State w)
  unfolding group_shards
  create_tasks m iteration action s =
      let (is, e) = w.list s m.cfg.corpus_dir in
      elim e [
        | some x ↦ ok (some (failed x), m, s)
        | none ↦
            group_shards m.cfg.num_v_shards iteration action 0 is m.pending none
            >>= λ (pending, task). ok (none, record m { pending = pending ++ task ∷ [] }, s)
      ]

  -- initializeTasks
  unfoldable pub initialize_tasks :
      Master F
      → World.State w
      → Run (Option (MasterError (World.Error w)) × Master F × World.State w)
  unfolding find_most_recent_completed_iteration is_logll_time create_tasks
  initialize_tasks m s =
      let (fi, e) = find_most_recent_completed_iteration m.cfg s in
      elim e [
        | some x ↦ ok (some (failed x), m, s)
        | none ↦
            (let m' : Master F = record m { iteration = fi +ℤ pos 1 } in
              if is_logll_time fi m.cfg.logll_period
              then create_tasks m' fi logll_action s
              else (let action = if ltb_ℤ fi (pos 0) then init_action else gibbs_action in
                  let (x, s') =
                    w.make_dir s (w.join m.cfg.job_dir (w.iteration_name (fi +ℤ pos 1))) in
                  elim x [
                    | some y ↦ ok (some (failed y), m', s')
                    | none ↦ create_tasks m' (fi +ℤ pos 1) action s'
                  ]))
      ]
