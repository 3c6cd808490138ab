-- ===== src/Srv/Config.antt =====
-- srv/config.go: the configuration of a job, its validation, and the numbers of the processes that
-- it names. JSON coding is not modelled.
pub mod Search
pub mod Squads
pub mod Laws
use text.Mathlib.Text.{◌==◌}
use open_peacock.Prelude.{
  ℕ, zero, suc, ◌≡◌, Bool, true, false, ◌&&◌, not, Option, none, some, List, [], ◌∷◌, ◌++◌, length,
  get_elem?, String, if◌then◌else◌,
}
use open_peacock.Prelude.Int.{ℤ, pos, negsuc, eqb_ℤ, leb_ℤ, to_index}
use open_peacock.Prelude.Run.{Run, ok, panic, fatal, ◌>>=◌, or_panic}

pub record Squad : Type 0 where
  pub name : String
  pub coordinator : String
  pub loaders : List String
  pub samplers : List String

-- `F` is float64.
pub record Config (F : Type 0) : Type 0 where
  pub deploy_dir : String
  pub log_dir : String
  pub job_name : String
  pub corpus_dir : String
  pub vocab_file : String
  pub master : String
  pub retry : ℤ
  pub squads : List Squad
  pub aggregators : List String
  pub machines : List String
  pub num_v_shards : ℤ
  pub job_dir : String
  pub logll_period : ℤ
  pub num_topics : ℤ
  pub topic_prior : F
  pub word_prior : F

-- What a line of the message about the squads says of the squad with that index.
pub data SquadError : Type 0 where
  no_coordinator wrong_loaders wrong_samplers : ℕ → SquadError

-- The errors that Validate returns, their texts aside.
pub data ConfigError : Type 0 where
  no_job_name no_master : ConfigError
  -- with no squad and no aggregator: whether machines are missing, and whether shards are
  not_allocatable : Bool → Bool → ConfigError
  one_sided no_v_shards : ConfigError
  bad_squads : List SquadError → ConfigError

-- `len(xs) <= 0`
abbrev pub is_empty {ℓ} : {A : Type ℓ} → List A → Bool
is_empty [] = true
is_empty (x ∷ xs) = false

abbrev pub when {ℓ} : {A : Type ℓ} → Bool → A → List A
when true a = a ∷ []
when false a = []

-- The body of the loop over the squads.
unfoldable pub squad_errors : ℤ → ℕ → Squad → List SquadError
squad_errors v i s =
    when (s.coordinator == "") (no_coordinator i)
    ++ when (not (eqb_ℤ (pos (length s.loaders)) v)) (wrong_loaders i)
    ++ when (not (eqb_ℤ (pos (length s.samplers)) v)) (wrong_samplers i)

-- The loop over the squads, from index `i` on.
unfoldable pub all_squad_errors : ℤ → ℕ → List Squad → List SquadError
all_squad_errors v i [] = []
all_squad_errors v i (s ∷ squads) = squad_errors v i s ++ all_squad_errors v (suc i) squads

-- The first index at which the test holds, from `i` on; -1 if there is none.
unfoldable pub index_where {ℓ} : {A : Type ℓ} → (A → Bool) → ℕ → List A → ℤ
index_where p i [] = negsuc 0
index_where p i (x ∷ xs) = if p x then pos i else index_where p (suc i) xs

module _ {F : Type 0} where
  -- AllocateSquadsAndAggregators ends the process.
  unfoldable pub allocate_squads_and_aggregators : Config F → Run (Config F)
  allocate_squads_and_aggregators c = fatal

  -- The part of Validate behind the allocation.
  unfoldable pub check_squads : Config F → Option ConfigError × Config F
  check_squads c =
      if leb_ℤ (pos (length c.aggregators)) (pos 0)
      then (some one_sided, c)
      else if is_empty c.squads
      then (some one_sided, c)
      else (let d : Config F = record c { num_v_shards = pos (length c.aggregators) } in
          if eqb_ℤ d.num_v_shards (pos 0)
          then (some no_v_shards, d)
          else elim (all_squad_errors d.num_v_shards 0 d.squads) [
            | [] ↦ (none, d)
            | e ∷ es ↦ (some (bad_squads (e ∷ es)), d)
          ])

  -- Validate: the error, nil as `none`, and the configuration with NumVShards set.
  unfoldable pub validate : Config F → Run (Option ConfigError × Config F)
  validate c =
      if c.job_name == ""
      then ok (some no_job_name, c)
      else if c.master == ""
      then ok (some no_master, c)
      else if is_empty c.aggregators && is_empty c.squads
      then (if is_empty c.machines
          then ok (some (not_allocatable true (leb_ℤ c.num_v_shards (pos 0))), c)
          else if leb_ℤ c.num_v_shards (pos 0)
          then ok (some (not_allocatable false true), c)
          else allocate_squads_and_aggregators c >>= λ d. ok (check_squads d))
      else ok (check_squads c)

  -- SquadId
  unfoldable pub squad_id : Config F → String → ℤ
  squad_id c addr = index_where (λ s. s.coordinator == addr) 0 c.squads

  -- SamplerId and LoaderId: the loop over the addresses that `members` selects.
  unfoldable pub member_id : (Squad → List String) → Config F → String → String → Run (ℤ × ℤ)
  unfolding squad_id
  member_id members c coord addr = elim (squad_id c coord) [
    | pos sid ↦ or_panic (get_elem? c.squads sid) >>= λ s.
        elim (index_where (λ a. a == addr) 0 (members s)) [
          | pos i ↦ ok (pos sid, pos i)
          | negsuc _ ↦ ok (negsuc 0, negsuc 0)
        ]
    | negsuc _ ↦ ok (negsuc 0, negsuc 0)
  ]

  unfoldable pub sampler_id : Config F → String → String → Run (ℤ × ℤ)
  unfolding member_id
  sampler_id c coord sampler = member_id (λ s. s.samplers) c coord sampler

  unfoldable pub loader_id : Config F → String → String → Run (ℤ × ℤ)
  unfolding member_id
  loader_id c coord loader = member_id (λ s. s.loaders) c coord loader

  -- AggregatorId
  unfoldable pub aggregator_id : Config F → String → ℤ
  aggregator_id c addr = index_where (λ a. a == addr) 0 c.aggregators
