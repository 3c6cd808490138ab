-- ===== src/Srv/Coordinator.antt =====
-- srv/coordinator_service.go: the coordinator of a squad: the registration of its processes and the
-- execution of tasks. The goroutines that a call starts are values of its result. The endless loop
-- of `run` is given by its rounds. The start of the process and the texts of the errors are not
-- modelled.
pub mod Laws
use text.Mathlib.Text.{◌==◌}
use open_peacock.Prelude.{
  ℕ, zero, suc, Bool, true, false, not, Option, none, some, List, [], ◌∷◌, ◌++◌, length, get_elem?,
  String, if◌then◌else◌,
}
use open_peacock.Prelude.Int.{ℤ, pos, negsuc, eqb_ℤ, leb_ℤ, ltb_ℤ, to_index}
use open_peacock.Prelude.Run.{Run, ok, panic, fatal, ◌>>=◌, ◌>>◌, fatal_if, or_panic}
use open_peacock.Srv.Config.{Config, Squad, squad_id}
use open_peacock.Srv.Task.{Task, init_action, gibbs_action, logll_action}
use open_peacock.Srv.World.{World}

pub record Coordinator (F : Type 0) : Type 0 where
  pub cfg : Config F
  pub me : String
  pub squad : Squad
  pub loaders : List String
  pub samplers : List String

pub data CoordinatorError (E : Type 0) : Type 0 where
  failed : E → CoordinatorError E
  too_many_loaders too_many_shards unknown_action not_implemented : CoordinatorError E

module _ {F : Type 0} (w : World F) where
  -- What a registration leaves; `starts` tells that it starts a goroutine: `run` for the last loader,
  -- `LaunchWorkers` for the last sampler.
  pub record Registration : Type 0 where
    pub error : Option (CoordinatorError (World.Error w))
    pub starts : Bool
    pub coordinator : Coordinator F
    pub state : World.State w

  -- RegisterLoader
  unfoldable pub register_loader : Coordinator F → World.State w → String → Registration
  register_loader c s addr =
      if leb_ℤ c.cfg.num_v_shards (pos (length c.loaders))
      then record { error = some too_many_loaders; starts = false; coordinator = c; state = s }
      else (let (e, s') = w.dial addr s in
          elim e [
            | some x ↦ record {
              error = some (failed x);
              starts = false;
              coordinator = c;
              state = s';
            }
            | none ↦
                (let c' : Coordinator F = record c { loaders = c.loaders ++ addr ∷ [] } in
                  record {
                    error = none;
                    starts =
                        if leb_ℤ c.cfg.num_v_shards (pos (length c'.loaders))
                        then not (c.cfg.master == "")
                        else false;
                    coordinator = c';
                    state = s';
                  })
          ])

  -- RegisterSampler: one sampler too many, and one that does not answer, end the process.
  unfoldable pub register_sampler : Coordinator F → World.State w → String → Run Registration
  register_sampler c s addr =
      fatal_if (leb_ℤ c.cfg.num_v_shards (pos (length c.samplers)))
      >> (let (e, s') = w.dial addr s in
          elim e [
            | some x ↦ fatal
            | none ↦
                (let c' : Coordinator F = record c { samplers = c.samplers ++ addr ∷ [] } in
                  ok (record {
                    error = none;
                    starts = leb_ℤ c.cfg.num_v_shards (pos (length c'.samplers));
                    coordinator = c';
                    state = s';
                  }))
          ])

  -- The closure of init, on the clients of the loaders and the shards.
  unfoldable pub init_shard :
      List String → List String → ℤ → World.State w → Run (Option (World.Error w) × World.State w)
  init_shard loaders shards i s = or_panic (to_index i) >>= λ n.
      or_panic (get_elem? loaders n) >>= λ l.
      or_panic (get_elem? shards n) >>= λ f. ok (w.init_loader l f s)

  -- init
  unfoldable pub init :
      Coordinator F
      → Task
      → World.State w
      → Run (Option (CoordinatorError (World.Error w)) × World.State w)
  unfolding init_shard
  init c t s =
      w.parallel_for (World.State w) (pos 0) (pos (length t.shards)) (pos 1)
        (init_shard c.loaders t.shards) s
      >>= λ (e, s'). ok (elim e [ some x ↦ some (failed x) | none ↦ none ], s')

  -- do, with gibbs and logll, which only return an error
  unfoldable pub execute :
      Coordinator F
      → Task
      → World.State w
      → Run (Option (CoordinatorError (World.Error w)) × World.State w)
  unfolding init
  execute c t s =
      if ltb_ℤ c.cfg.num_v_shards (pos (length t.shards))
      then ok (some too_many_shards, s)
      else if eqb_ℤ t.action init_action
      then init c t s
      else if eqb_ℤ t.action gibbs_action
      then ok (some not_implemented, s)
      else if eqb_ℤ t.action logll_action
      then ok (some not_implemented, s)
      else ok (some unknown_action, s)

  -- The head of RunCoordinator: the coordinator for that address, none if no squad has it.
  unfoldable pub new_coordinator : Config F → String → Run (Option (Coordinator F))
  new_coordinator cfg addr = elim (squad_id cfg addr) [
    | negsuc _ ↦ ok none
    | pos sid ↦ or_panic (get_elem? cfg.squads sid) >>= λ squad.
        ok (some (record { cfg = cfg; me = addr; squad = squad; loaders = []; samplers = [] }))
  ]

  module _ (register : String → World.State w → Option (World.Error w) × Task × World.State w)
      (complete : Task → World.State w → Option (World.Error w) × Task × World.State w) where
    -- The loop of run after that many rounds, each a task done and reported; the calls of the master
    -- are parameters, and an error of any call ends the process.
    unfoldable pub run_rounds :
        ℕ → Coordinator F → Task → World.State w → Run (Task × World.State w)
    unfolding execute
    run_rounds zero c t s = ok (t, s)
    run_rounds (suc n) c t s = execute c t s >>= λ (e, s₁). elim e [
      | some x ↦ fatal
      | none ↦
          let (e', t', s₂) = complete (record t { coord = c.me }) s₁ in
          elim e' [ some x ↦ fatal | none ↦ run_rounds n c t' s₂ ]
    ]

    -- run for that many rounds
    unfoldable pub run : ℕ → Coordinator F → World.State w → Run (Task × World.State w)
    unfolding run_rounds
    run n c s =
        let (e, s₁) = w.dial c.cfg.master s in
        elim e [
          | some x ↦ fatal
          | none ↦
              let (e', t, s₂) = register c.me s₁ in
              elim e' [ some x ↦ fatal | none ↦ run_rounds n c t s₂ ]
        ]
