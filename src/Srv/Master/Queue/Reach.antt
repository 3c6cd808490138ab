-- ===== src/Srv/Master/Queue/Reach.antt =====
-- srv/master_service.go: the masters that sequences of calls produce.
use open_peacock.Prelude.{
  ◌≡◌, sym, ap, ◌∙◌, subst, inl, inr, none, some, [], ◌∷◌, ◌++◌, String, length, Bool-cases,
  Option-cases,
}
use open_peacock.Prelude.Int.{pos, negsuc, leb_ℤ}
use open_peacock.Prelude.Run.{ok, ◌>>=◌, Run-cases}
use open_peacock.Srv.Config.{Config, validate}
use open_peacock.Srv.Task.{Task}
use open_peacock.Srv.Process.{launch_squads}
use open_peacock.Srv.World.{World}
use open_peacock.Srv.Master.Iterations.{Master, initialize_tasks}
use open_peacock.Srv.Master.Queue.{
  find_task, first_equal, Reply, distribute_task, register_squad, complete_task,
  register_aggregator, new_master,
}
use open_peacock.Srv.Master.Queue.Keys.{IsAssigned, delete-IsAssigned}
use open_peacock.Srv.Master.Queue.Laws.{
  initialize_tasks-working, assign_task-IsAssigned, distribute_task-cases,
}

module _ {F : Type 0} (w : World F) where
  distribute_task-IsAssigned :
      (m : Master F) (s : World.State w) (c : String) (task : Task) {r : Reply w}
      → IsAssigned m.working
      → distribute_task w m s c task ≡ ok r
      → IsAssigned r.master.working
  distribute_task-IsAssigned m s c task a h = elim (distribute_task-cases w m s c task h) [
    | inl (m', s', k, g) ↦ assign_task-IsAssigned w m' s' c task (subst IsAssigned (sym k) a) g
    | inr (k, n) ↦ subst (λ (x : Master F). IsAssigned x.working) (sym k) a
  ]

  register_squad-IsAssigned :
      (m : Master F) (s : World.State w) (c : String) (task : Task) {r : Reply w}
      → IsAssigned m.working
      → register_squad w m s c task ≡ ok r
      → IsAssigned r.master.working
  unfolding register_squad
  register_squad-IsAssigned m s c task {r = r} a h = elim (Option-cases (find_task c m.working)) [
    | inr (t, q) ↦
        let g : m ≡ r.master = cc (rw (register_squad, q) at h) in
        subst (λ (x : Master F). IsAssigned x.working) g a
    | inl q ↦ distribute_task-IsAssigned m s c task a (rw (register_squad, q) at h)
  ]

  complete_task-IsAssigned :
      (m : Master F) (s : World.State w) (did ret : Task) {r : Reply w}
      → IsAssigned m.working
      → complete_task w m s did ret ≡ ok r
      → IsAssigned r.master.working
  unfolding complete_task
  complete_task-IsAssigned m s did ret {r = r} a h =
      elim (Option-cases (first_equal did (w.range m.working))) [
        | inl q ↦
            let g : m ≡ r.master = cc (rw (complete_task, q) at h) in
            subst (λ (x : Master F). IsAssigned x.working) g a
        | inr (mine, q) ↦ elim (Bool-cases mine) [
          | inl p ↦
              distribute_task-IsAssigned _ s did.coord ret (delete-IsAssigned did.coord m.working a)
                (rw (complete_task, q, p) at h)
          | inr p ↦
              let g : m ≡ r.master = cc (rw (complete_task, q, p) at h) in
              subst (λ (x : Master F). IsAssigned x.working) g a
        ]
      ]

  register_aggregator-working :
      (m : Master F) (s : World.State w) (aggr : String)
      → (register_aggregator w m s aggr).1.working ≡ m.working
  unfolding register_aggregator
  register_aggregator-working m s aggr = elim (Option-cases (w.dial aggr s).0) [
    | inr (x, q) ↦ rw (register_aggregator, q)
    | inl q ↦
        let m' : Master F = record m { aggregators = m.aggregators ++ aggr ∷ [] } in
        elim (Bool-cases (leb_ℤ (pos (length m.cfg.aggregators)) (pos (length m'.aggregators)))) [
          | inr r ↦ rw (register_aggregator, q, r)
          | inl r ↦ elim (Option-cases (launch_squads w m.cfg (w.dial aggr s).1).0) [
            | inl e ↦ rw (register_aggregator, q, r, e)
            | inr (y, e) ↦ rw (register_aggregator, q, r, e)
          ]
        ]
  ]

  new_master-working :
      (c : Config F) (s : World.State w) {m : Master F} {s' : World.State w}
      → new_master w c s ≡ ok (none, some m, s')
      → m.working ≡ []
  unfolding new_master
  new_master-working c s {m = m} h = elim (Run-cases (validate c)) [
    | inr (inl g) ↦ cc (rw (new_master, g, ◌>>=◌) at h)
    | inr (inr g) ↦ cc (rw (new_master, g, ◌>>=◌) at h)
    | inl ((e, d), g) ↦ elim (Option-cases e) [
      | inr (x, o) ↦ cc (rw (new_master, g, o, ◌>>=◌) at h)
      | inl o ↦
          let first : Master F = record {
            cfg = d;
            pending = [];
            working = [];
            aggregators = [];
            iteration = negsuc 0;
          } in
          elim (Run-cases (initialize_tasks w first s)) [
            | inr (inl k) ↦ cc (rw (new_master, g, o, ◌>>=◌, k) at h)
            | inr (inr k) ↦ cc (rw (new_master, g, o, ◌>>=◌, k) at h)
            | inl ((e', m', s'), k) ↦
                let h' = rw (new_master, g, o, ◌>>=◌, k) at h in
                elim (Option-cases e') [
                  | inr (x, p) ↦ cc (rw p at h')
                  | inl p ↦
                      let same : m' ≡ m = cc (rw p at h') in
                      ap (λ x. x.working) (sym same) ∙ initialize_tasks-working w first s k
                ]
          ]
    ]
  ]

  -- The masters that a sequence of calls produces. The outside state is arbitrary at each call.
  pub data Reachable : Master F → Type 0 where
    started :
        (c : Config F) (s s' : World.State w) (m : Master F)
        → new_master w c s ≡ ok (none, some m, s')
        → Reachable m
    registered :
        (m : Master F) (s : World.State w) (c : String) (task : Task) (r : Reply w)
        → Reachable m
        → register_squad w m s c task ≡ ok r
        → Reachable r.master
    completed :
        (m : Master F) (s : World.State w) (did ret : Task) (r : Reply w)
        → Reachable m
        → complete_task w m s did ret ≡ ok r
        → Reachable r.master
    with_aggregator :
        (m : Master F) (s : World.State w) (aggr : String)
        → Reachable m
        → Reachable (register_aggregator w m s aggr).1

  -- In every master that a sequence of calls produces, each working task names the squad under which
  -- it is kept.
  pub Reachable-IsAssigned : (m : Master F) → Reachable m → IsAssigned m.working
  unfolding find_task
  Reachable-IsAssigned m (started c s s' _ h) =
      subst IsAssigned (sym (new_master-working c s h)) (λ k t e. cc)
  Reachable-IsAssigned m (registered m' s c task r p h) =
      register_squad-IsAssigned m' s c task (Reachable-IsAssigned m' p) h
  Reachable-IsAssigned m (completed m' s did ret r p h) =
      complete_task-IsAssigned m' s did ret (Reachable-IsAssigned m' p) h
  Reachable-IsAssigned m (with_aggregator m' s aggr p) =
      subst IsAssigned (sym (register_aggregator-working m' s aggr)) (Reachable-IsAssigned m' p)
