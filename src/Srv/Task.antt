-- ===== src/Srv/Task.antt =====
-- srv/common.go: the tasks that the master gives to the squads.
use text.Mathlib.Text.{◌==◌}
use open_peacock.Prelude.{Bool, true, false, List, [], ◌∷◌, length, String, if◌then◌else◌, not}
use open_peacock.Prelude.Int.{ℤ, pos, eqb_ℤ, ltb_ℤ}
use open_peacock.Prelude.Run.{Run, ok, ◌>>◌, panic_if}

-- An action is one of the constants of master_service.go, or any other `int` that arrives.
pub record Task : Type 0 where
  pub shards : List String
  pub coord : String
  pub iteration : ℤ
  pub action : ℤ

-- INIT, GIBBS and LOGLL
abbrev pub init_action : ℤ
init_action = pos 0

abbrev pub gibbs_action : ℤ
gibbs_action = pos 1

abbrev pub logll_action : ℤ
logll_action = pos 2

-- NewTask: a slice with a negative capacity panics.
unfoldable pub new_task : ℤ → ℤ → ℤ → Run Task
new_task vshard iteration action = do
  panic_if (ltb_ℤ vshard (pos 0))
  ok (record { shards = []; coord = ""; iteration = iteration; action = action })

-- The loop of Equal over the shards of two slices of the same length.
unfoldable pub same_shards : List String → List String → Bool
same_shards [] gs = true
same_shards (f ∷ fs) [] = false
same_shards (f ∷ fs) (g ∷ gs) = if f == g then same_shards fs gs else false

-- Equal, on tasks that are not nil: neither the iteration nor the coordinator counts.
unfoldable pub equal : Task → Task → Bool
unfolding same_shards
equal t o =
    if not (eqb_ℤ (pos (length t.shards)) (pos (length o.shards)))
    then false
    else if not (eqb_ℤ t.action o.action)
    then false
    else same_shards t.shards o.shards
