-- ===== src/Srv/Master/Queue/Laws.antt =====
-- srv/master_service.go: what an assignment of a task leaves in the master's queues.
use open_peacock.Prelude.{
  ◌≡◌, ◌≢◌, refl, subst, ◌⊎◌, inl, inr, none, some, String, Bool-cases, Option-cases,
}
use open_peacock.Prelude.Int.{ℤ, pos, ◌+ℤ◌}
use open_peacock.Prelude.Run.{ok, ◌>>=◌, or_panic, Run-cases}
use open_peacock.Srv.Task.{Task}
use open_peacock.Srv.World.{World}
use open_peacock.Srv.Master.Iterations.{
  Master, initialize_tasks, create_tasks, group_shards, is_logll_time,
  find_most_recent_completed_iteration,
}
use open_peacock.Srv.Master.Queue.{
  find_task, put_task, Reply, assign_task, distribute_task, register_squad, aggregate_global_hists,
  save_model,
}
use open_peacock.Srv.Master.Queue.Keys.{find-put_self, IsAssigned, put-IsAssigned, List-cases}

module _ {F : Type 0} (w : World F) where
  pub create_tasks-working :
      (m : Master F) (i a : ℤ) (s : World.State w) {e : _} {m' : Master F} {s' : _}
      → create_tasks w m i a s ≡ ok (e, m', s')
      → m'.working ≡ m.working
  unfolding create_tasks
  create_tasks-working m i a s h = elim (Option-cases (w.list s m.cfg.corpus_dir).1) [
    | inl q ↦
        elim (Run-cases
          (group_shards m.cfg.num_v_shards i a 0 (w.list s m.cfg.corpus_dir).0 m.pending none)) [
            | inl (r, g) ↦ cc (rw (create_tasks, q, g, ◌>>=◌) at h)
            | inr (inl g) ↦ cc (rw (create_tasks, q, g, ◌>>=◌) at h)
            | inr (inr g) ↦ cc (rw (create_tasks, q, g, ◌>>=◌) at h)
          ]
    | inr (x, q) ↦ cc (rw (create_tasks, q) at h)
  ]

  -- A new iteration does not touch the tasks that squads work on.
  pub initialize_tasks-working :
      (m : Master F) (s : World.State w) {e : _} {m' : Master F} {s' : _}
      → initialize_tasks w m s ≡ ok (e, m', s')
      → m'.working ≡ m.working
  unfolding initialize_tasks
  initialize_tasks-working m s h =
      let found = find_most_recent_completed_iteration w m.cfg s in
      elim (Option-cases found.1) [
        | inr (x, q) ↦ cc (rw (initialize_tasks, q) at h)
        | inl q ↦
            let g = rw (initialize_tasks, q) at h in
            elim (Bool-cases (is_logll_time found.0 m.cfg.logll_period)) [
              | inl r ↦ create_tasks-working _ _ _ _ (rw r at g)
              | inr r ↦
                  let made =
                    w.make_dir s (w.join m.cfg.job_dir (w.iteration_name (found.0 +ℤ pos 1))) in
                  elim (Option-cases made.0) [
                    | inl t ↦ create_tasks-working _ _ _ _ (rw (r, t) at g)
                    | inr (x, t) ↦ cc (rw (r, t) at g)
                  ]
            ]
      ]

  pub assign_task-IsAssigned :
      (m : Master F) (s : World.State w) (c : String) (task : Task) {r : Reply w}
      → IsAssigned m.working
      → assign_task w m s c task ≡ ok r
      → IsAssigned r.master.working
  unfolding assign_task
  assign_task-IsAssigned m s c task {r = r} a h = elim (List-cases m.pending) [
    | inl q ↦
        let g : m ≡ r.master = cc (rw (assign_task, q) at h) in
        subst (λ (x : Master F). IsAssigned x.working) g a
    | inr (p, ps, q) ↦ elim (Option-cases p) [
      | inl e ↦ cc (rw (assign_task, q, e, or_panic, ◌>>=◌) at h)
      | inr (t, e) ↦
          let t' : Task = record t { coord = c } in
          let g : put_task c t' m.working ≡ r.master.working =
            cc (rw (assign_task, q, e, or_panic, ◌>>=◌) at h) in
          subst IsAssigned g (put-IsAssigned c t' m.working refl a)
    ]
  ]

  -- An assignment that succeeds leaves the task in the working queue.
  pub assign_task-find :
      (m : Master F) (s : World.State w) (c : String) (task : Task) {r : Reply w}
      → assign_task w m s c task ≡ ok r
      → r.error ≡ none
      → find_task c r.master.working ≡ some r.task
  unfolding assign_task
  assign_task-find m s c task {r = r} h e = elim (List-cases m.pending) [
    | inl q ↦ cc (rw (assign_task, q) at h)
    | inr (p, ps, q) ↦ elim (Option-cases p) [
      | inl o ↦ cc (rw (assign_task, q, o, or_panic, ◌>>=◌) at h)
      | inr (t, o) ↦
          let t' : Task = record t { coord = c } in
          let g : put_task c t' m.working ≡ r.master.working =
            cc (rw (assign_task, q, o, or_panic, ◌>>=◌) at h) in
          let same : t' ≡ r.task = cc (rw (assign_task, q, o, or_panic, ◌>>=◌) at h) in
          rw (← g, ← same) (find-put_self c t' m.working)
    ]
  ]

  -- A task is given by an assignment, in a master with the same working tasks, or there is an error.
  pub distribute_task-cases :
      (m : Master F) (s : World.State w) (c : String) (task : Task) {r : Reply w}
      → distribute_task w m s c task ≡ ok r
      → ((m' : Master F) × (s' : World.State w) × (m'.working ≡ m.working)
          × (assign_task w m' s' c task ≡ ok r))
        ⊎ ((r.master ≡ m) × (r.error ≢ none))
  unfolding distribute_task
  distribute_task-cases m s c task {r = r} h = elim (List-cases m.pending) [
    | inr (p, ps, q) ↦ inl (m, s, refl, rw (distribute_task, q) at h)
    | inl q ↦ elim (Run-cases (aggregate_global_hists w m s)) [
      | inr (inl g) ↦ cc (rw (distribute_task, q, g, ◌>>=◌) at h)
      | inr (inr g) ↦ cc (rw (distribute_task, q, g, ◌>>=◌) at h)
      | inl ((e, s₁), g) ↦
          let h' = rw (distribute_task, q, g, ◌>>=◌) at h in
          elim (Option-cases e) [
            | inr (x, o) ↦ inr (cc (rw o at h'), λ n. cc (rw o at h'))
            | inl o ↦ elim (Run-cases (save_model w m s₁)) [
              | inr (inl k) ↦ cc (rw (o, k, ◌>>=◌) at h')
              | inr (inr k) ↦ cc (rw (o, k, ◌>>=◌) at h')
              | inl ((e', s₂), k) ↦
                  let h₂ = rw (o, k, ◌>>=◌) at h' in
                  elim (Option-cases e') [
                    | inr (x, p) ↦ inr (cc (rw p at h₂), λ n. cc (rw p at h₂))
                    | inl p ↦ elim (Run-cases (initialize_tasks w m s₂)) [
                      | inr (inl j) ↦ cc (rw (p, j, ◌>>=◌) at h₂)
                      | inr (inr j) ↦ cc (rw (p, j, ◌>>=◌) at h₂)
                      | inl ((e₃, m', s₃), j) ↦
                          inl (m', s₃, initialize_tasks-working m s₂ j, rw (p, j, ◌>>=◌) at h₂)
                    ]
                  ]
            ]
          ]
    ]
  ]

  -- A squad that RegisterSquad gave a task without an error, and that calls it again, gets the same
  -- task, and nothing changes.
  pub register_squad-repeat :
      (m : Master F) (s s' : World.State w) (c : String) (task task' : Task) (r : Reply w)
      → register_squad w m s c task ≡ ok r
      → r.error ≡ none
      → register_squad w r.master s' c task'
        ≡ ok (record { error = none; task = r.task; master = r.master; state = s' })
  unfolding register_squad
  register_squad-repeat m s s' c task task' r h e = elim (Option-cases (find_task c m.working)) [
    | inr (t, q) ↦
        let g : m ≡ r.master = cc (rw (register_squad, q) at h) in
        let same : t ≡ r.task = cc (rw (register_squad, q) at h) in
        let kept : find_task c r.master.working ≡ some r.task = rw (← g, ← same) q in
        rw (register_squad, kept)
    | inl q ↦ elim (distribute_task-cases m s c task (rw (register_squad, q) at h)) [
      | inl (m', s₂, k, a) ↦ rw (register_squad, assign_task-find m' s₂ c task a e)
      | inr (k, n) ↦ absurd (n e)
    ]
  ]
