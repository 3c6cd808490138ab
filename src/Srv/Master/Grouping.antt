-- ===== src/Srv/Master/Grouping.antt =====
-- srv/master_service.go: the tasks that initializeTasks makes of the corpus.
use mathlib.Core.List.{append-nil, append_assoc}
use native.Mathlib.Nat.{suc-mod, mod_self, zero-mod, mod-eq_of_lt}
use open_peacock.Prelude.{
  ℕ, suc, ◌%◌, ◌≤◌, ◌<◌, ◌≡◌, refl, sym, ap, ◌∙◌, subst, ◌⊎◌, inl, inr, true, false, Option, none,
  some, List, [], ◌∷◌, ◌++◌, map, String, length, length-append, ◌==◌, arith, dec_lt,
}
use open_peacock.Prelude.Int.{ℤ, pos, ltb_ℤ}
use open_peacock.Prelude.Run.{Run, ok}
use open_peacock.Srv.Task.{Task, new_task}
use open_peacock.Srv.World.{FileInfo}
use open_peacock.Srv.Master.Iterations.{index_rem, group_shards}

-- The shards of a task, none for a nil task.
abbrev pub shards_of : Option Task → List String
shards_of none = []
shards_of (some t) = t.shards

abbrev pub all_shards : List (Option Task) → List String
all_shards [] = []
all_shards (t ∷ ts) = shards_of t ++ all_shards ts

-- A task for that iteration and action with exactly `v` shards and no coordinator.
abbrev pub IsFull : ℕ → ℤ → ℤ → Option Task → Type 0
IsFull v iteration action none = ⊥
IsFull v iteration action (some t) =
    (length t.shards ≡ v) × (t.iteration ≡ iteration) × (t.action ≡ action) × (t.coord ≡ "")

abbrev pub AllFull : ℕ → ℤ → ℤ → List (Option Task) → Type 0
AllFull v iteration action [] = Unit
AllFull v iteration action (t ∷ ts) = IsFull v iteration action t × AllFull v iteration action ts

-- What the loop returns for a corpus with those names: the pending tasks from before, full tasks,
-- and a last task with at least one and at most `v` shards; together the shards are the names, in
-- their order.
abbrev pub IsGrouping :
    ℕ → ℤ → ℤ → List String → List (Option Task) → Run (List (Option Task) × Option Task) → Type 0
IsGrouping v iteration action names pending r =
    (full : List (Option Task)) × (t : Task) × (r ≡ ok (pending ++ full, some t))
    × AllFull v iteration action full
    × (1 ≤ length t.shards)
    × (length t.shards ≤ v)
    × (t.iteration ≡ iteration)
    × (t.action ≡ action)
    × (t.coord ≡ "")
    × (all_shards full ++ t.shards ≡ names)

all_shards-snoc :
    (xs : List (Option Task)) (t : Option Task)
    → all_shards (xs ++ t ∷ []) ≡ all_shards xs ++ shards_of t
all_shards-snoc [] t = append-nil (shards_of t)
all_shards-snoc (x ∷ xs) t =
    ap (λ r. shards_of x ++ r) (all_shards-snoc xs t)
    ∙ sym (append_assoc (shards_of x) (all_shards xs) (shards_of t))

AllFull-snoc :
    (v : ℕ) (iteration action : ℤ) (xs : List (Option Task)) (t : Option Task)
    → AllFull v iteration action xs
    → IsFull v iteration action t
    → AllFull v iteration action (xs ++ t ∷ [])
AllFull-snoc v iteration action [] t h k = (k, tt)
AllFull-snoc v iteration action (x ∷ xs) t (h, hs) k =
    (h, AllFull-snoc v iteration action xs t hs k)

-- The test of the loop: a group is full exactly at the multiples of its size.
full_test :
    (v i l : ℕ)
    → i % suc v ≡ l % suc v
    → 1 ≤ l
    → l ≤ suc v
    → (((i % suc v) == 0) ≡ true × (l ≡ suc v)) ⊎ (((i % suc v) == 0) ≡ false × (l < suc v))
full_test v i l e p q = elim (dec_lt l (suc v)) [
  | yes lt ↦ let small : i % suc v ≡ l = e ∙ mod-eq_of_lt lt in inr (ground arith, lt)
  | no not_lt ↦
      let full : l ≡ suc v = omega arith in
      let zero_rem : i % suc v ≡ 0 = e ∙ ap (λ x. x % suc v) full ∙ mod_self (suc v) in
      inl (ground arith, full)
]

next_rem : (v i l : ℕ) → i % suc v ≡ l % suc v → suc i % suc v ≡ suc l % suc v
next_rem v i l e = suc-mod i (suc v) ∙ ap (λ x. suc x % suc v) e ∙ sym (suc-mod l (suc v))

-- The task that the loop starts for a shard.
abbrev fresh : ℤ → ℤ → String → Task
fresh iteration action name = record {
  shards = name ∷ [];
  coord = "";
  iteration = iteration;
  action = action;
}

not_negative : (v : ℕ) → ltb_ℤ (pos v) (pos 0) ≡ false
not_negative v = ground arith

new_task_ok :
    (v : ℕ) (iteration action : ℤ)
    → new_task (pos v) iteration action
      ≡ ok (record { shards = []; coord = ""; iteration = iteration; action = action })
unfolding new_task
new_task_ok v iteration action = rw (new_task, not_negative v)

step_new :
    (v : ℕ) (iteration action : ℤ) (i : ℕ) (info : FileInfo) (infos : List FileInfo)
    (pending : List (Option Task)) (task : Option Task)
    → ((i % suc v) == 0) ≡ true
    → group_shards (pos (suc v)) iteration action i (info ∷ infos) pending task
      ≡ group_shards
          (pos (suc v))
          iteration
          action
          (suc i)
          infos
          (elim task [ some u ↦ pending ++ some u ∷ [] | none ↦ pending ])
          (some (fresh iteration action info.name))
unfolding group_shards index_rem
step_new v iteration action i info infos pending task z =
    rw (group_shards, z, new_task_ok (suc v) iteration action)

step_old :
    (v : ℕ) (iteration action : ℤ) (i : ℕ) (info : FileInfo) (infos : List FileInfo)
    (pending : List (Option Task)) (t : Task)
    → ((i % suc v) == 0) ≡ false
    → group_shards (pos (suc v)) iteration action i (info ∷ infos) pending (some t)
      ≡ group_shards
          (pos (suc v))
          iteration
          action
          (suc i)
          infos
          pending
          (some (record t { shards = t.shards ++ info.name ∷ [] }))
unfolding group_shards index_rem
step_old v iteration action i info infos pending t z = rw (group_shards, z)

move :
    (v : ℕ) (iteration action : ℤ) {names names' : List String} (pending : List (Option Task))
    {r r' : Run (List (Option Task) × Option Task)}
    → names ≡ names'
    → r ≡ r'
    → IsGrouping v iteration action names pending r
    → IsGrouping v iteration action names' pending r'
move v iteration action {names = names} pending {r' = r'} p q h =
    subst (λ (x : List String). IsGrouping v iteration action x pending r') p
      (subst
        (λ (x : Run (List (Option Task) × Option Task)).
          IsGrouping v iteration action names pending x)
        q h)

group_more :
    (v : ℕ) (iteration action : ℤ) (i : ℕ) (infos : List FileInfo)
    (pending full : List (Option Task)) (t : Task)
    → i % suc v ≡ length t.shards % suc v
    → 1 ≤ length t.shards
    → length t.shards ≤ suc v
    → (t.iteration ≡ iteration) × (t.action ≡ action) × (t.coord ≡ "")
    → AllFull (suc v) iteration action full
    → IsGrouping
        (suc v)
        iteration
        action
        (all_shards full ++ t.shards ++ map (λ (x : FileInfo). x.name) infos)
        pending
        (group_shards (pos (suc v)) iteration action i infos (pending ++ full) (some t))
unfolding group_shards
group_more v iteration action i [] pending full t e p q is_for af =
    (full, t, refl, af, p, q, is_for.0, is_for.1, is_for.2, sym (append-nil _))
group_more v iteration action i (info ∷ infos) pending full t e p q is_for af =
    let names = map (λ (x : FileInfo). x.name) infos in
    elim (full_test v i (length t.shards) e p q) [
      | inl (z, l) ↦
          let rest =
            group_more v iteration action (suc i) infos pending (full ++ some t ∷ [])
              (fresh iteration action info.name)
              (next_rem v i 0
                (e ∙ ap (λ x. x % suc v) l ∙ mod_self (suc v) ∙ sym (zero-mod (suc v))))
              (omega arith) (omega arith) (refl, refl, refl)
              (AllFull-snoc (suc v) iteration action full (some t) af
                (l, is_for.0, is_for.1, is_for.2)) in
          move _ _ _ pending
            (ap (λ x. x ++ info.name ∷ [] ++ names) (all_shards-snoc full (some t))
              ∙ append_assoc _ (info.name ∷ []) names)
            (ap
                (λ x.
                  group_shards (pos (suc v)) iteration action (suc i) infos x
                    (some (fresh iteration action info.name)))
                (sym (append_assoc pending full (some t ∷ [])))
              ∙ sym (step_new v iteration action i info infos (pending ++ full) (some t) z))
            rest
      | inr (z, l) ↦
          let t' : Task = record t { shards = t.shards ++ info.name ∷ [] } in
          let len : length t'.shards ≡ suc (length t.shards) =
            length-append t.shards _ ∙ omega arith in
          let rest =
            group_more v iteration action (suc i) infos pending full t'
              (next_rem v i (length t.shards) e ∙ ap (λ x. x % suc v) (sym len))
              (omega (arith, len)) (omega (arith, len)) is_for af in
          move _ _ _ pending
            (ap (λ x. x ++ names) (sym (append_assoc (all_shards full) t.shards (info.name ∷ [])))
              ∙ append_assoc _ (info.name ∷ []) names)
            (sym (step_old v iteration action i info infos (pending ++ full) t z)) rest
    ]

-- The loop of initializeTasks over a corpus that is not empty, with a positive NumVShards: it returns,
-- behind the tasks that were pending, tasks with exactly NumVShards shards and a last task with at
-- least one and at most that many, all for the given iteration and action and without a coordinator;
-- their shards are the files of the corpus in their order.
pub group_shards-IsGrouping :
    (v : ℕ) (iteration action : ℤ) (info : FileInfo) (infos : List FileInfo)
    (pending : List (Option Task))
    → IsGrouping
        (suc v)
        iteration
        action
        (map (λ (x : FileInfo). x.name) (info ∷ infos))
        pending
        (group_shards (pos (suc v)) iteration action 0 (info ∷ infos) pending none)
group_shards-IsGrouping v iteration action info infos pending =
    move _ _ _ pending refl
      (ap
          (λ x.
            group_shards (pos (suc v)) iteration action 1 infos x
              (some (fresh iteration action info.name)))
          (append-nil pending)
        ∙ sym (
            step_new v iteration action 0 info infos pending none
              (ap (λ x. x == 0) (zero-mod (suc v)))))
      (group_more v iteration action 1 infos pending [] (fresh iteration action info.name) refl
        (omega arith) (omega arith) (refl, refl, refl) tt)
