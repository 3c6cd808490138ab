-- ===== src/Srv/Process.antt =====
-- srv/proc_mgnt.go: the start and the end of the processes of a job by prism.
use Prim.Native.String.{◌++◌}
use open_peacock.Prelude.{Option, none, some, List, [], ◌∷◌, length, get_elem?, String}
use open_peacock.Prelude.Int.{ℤ, pos, to_index}
use open_peacock.Prelude.Run.{Run, ok, ◌>>=◌, or_panic}
use open_peacock.Srv.Config.{Config, Squad}
use open_peacock.Srv.World.{World}

module _ {F : Type 0} (w : World F) where
  open w use {State, Error, kill, launch, encode, parallel_for}

  -- The loop of KillSquads: the first error ends it.
  unfoldable pub kill_coordinators : List Squad → State → Option Error × State
  kill_coordinators [] s = (none, s)
  kill_coordinators (q ∷ squads) s =
      let (e, s') = kill q.coordinator s in
      elim e [ some x ↦ (some x, s') | none ↦ kill_coordinators squads s' ]

  -- KillSquads
  unfoldable pub kill_squads : Config F → State → Option Error × State
  unfolding kill_coordinators
  kill_squads c s = kill_coordinators c.squads s

  -- The loop of LaunchSquads, with the encoded configuration.
  unfoldable pub launch_coordinators : Config F → String → List Squad → State → Option Error × State
  launch_coordinators c f [] s = (none, s)
  launch_coordinators c f (q ∷ squads) s =
      let (e, s') =
        launch q.coordinator c.deploy_dir "coordinator"
          (("-config=" ++ f) ∷ ("-addr=" ++ q.coordinator) ∷ []) c.log_dir c.retry s in
      elim e [ some x ↦ (some x, s') | none ↦ launch_coordinators c f squads s' ]

  -- LaunchSquads: an error of the killing before is dropped.
  unfoldable pub launch_squads : Config F → State → Option Error × State
  unfolding kill_squads launch_coordinators
  launch_squads c s =
      let (_, s₁) = kill_squads c s in
      let (f, e) = encode c in
      elim e [ some x ↦ (some x, s₁) | none ↦ launch_coordinators c f c.squads s₁ ]

  -- The closure of KillWorkers.
  unfoldable pub kill_worker : List String → ℤ → State → Run (Option Error × State)
  kill_worker addrs i s =
      or_panic (to_index i) >>= λ n. or_panic (get_elem? addrs n) >>= λ a. ok (kill a s)

  -- KillWorkers
  unfoldable pub kill_workers : List String → State → Run (Option Error × State)
  unfolding kill_worker
  kill_workers addrs s =
      parallel_for State (pos 0) (pos (length addrs)) (pos 1) (kill_worker addrs) s

  -- The closure of LaunchWorkers.
  unfoldable pub launch_worker :
      String → String → Config F → String → List String → ℤ → State → Run (Option Error × State)
  launch_worker who what c f addrs i s = or_panic (to_index i) >>= λ n.
      or_panic (get_elem? addrs n) >>= λ a. ok (
        launch a c.deploy_dir what (("-config=" ++ f) ∷ ("-addr=" ++ a) ∷ ("-parent=" ++ who) ∷ [])
          c.log_dir (pos 1) s)

  -- LaunchWorkers
  unfoldable pub launch_workers :
      String → String → List String → Config F → State → Run (Option Error × State)
  unfolding kill_workers launch_worker
  launch_workers who what addrs c s = kill_workers addrs s >>= λ (_, s₁).
      let (f, e) = encode c in
      elim e [
        | some x ↦ ok (some x, s₁)
        | none ↦
            parallel_for State (pos 0) (pos (length addrs)) (pos 1)
              (launch_worker who what c f addrs) s₁
      ]
