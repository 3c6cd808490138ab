-- ===== src/Examples/Services.antt =====
-- The theorems on the services and the vocabulary applied to a small job.
use mathlib.Core.List.Permᴰ
use text.Mathlib.Text.{◌==◌}
use open_peacock.Prelude.{
  inr, ℕ, zero, suc, ◌≡◌, ◌≢◌, refl, ◌⊎◌, inl, ◌↔◌, false, Option, none, some, [], ◌∷◌, arith,
  if◌then◌else◌,
}
use open_peacock.Prelude.Int.{ℤ, pos, negsuc, ltb_ℤ, ◌+ℤ◌}
use open_peacock.Prelude.Run.{Run, ok, ◌>>=◌}
use open_peacock.Gibbs.Vocab
use open_peacock.Gibbs.Vocab.{Vocabulary}
use open_peacock.Gibbs.Vocab.Laws.{id-token}
use open_peacock.Srv.Config
use open_peacock.Srv.Config.{Squad, Config}
use open_peacock.Srv.Config.Search.{IsFirst}
use open_peacock.Srv.Config.Laws.{
  IsValid, IsMemberId, validate_iff, squad_id-IsFirst, sampler_id-IsMemberId, loader_id-IsMemberId,
}
use open_peacock.Srv.Task.{Task, new_task}
use open_peacock.Srv.World.{World}
use open_peacock.Srv.Master.Iterations.{Master, group_shards, initialize_tasks, index_rem}
use open_peacock.Srv.Master.Grouping.{IsGrouping, group_shards-IsGrouping}
use open_peacock.Srv.Master.Queue
use open_peacock.Srv.Master.Queue.{Reply, register_squad, find_task}
use open_peacock.Srv.Master.Queue.Keys.{IsAssigned}
use open_peacock.Srv.Master.Queue.Laws.{register_squad-repeat}
use open_peacock.Srv.Master.Queue.Reach.{Reachable, Reachable-IsAssigned}
use open_peacock.Srv.Coordinator.{Coordinator, register_loader}
use open_peacock.Srv.Coordinator.Laws.{IsRegistered, register_loader-IsRegistered}

-- A job of two squads with one loader and one sampler each.
abbrev job : Config Unit
job = record {
  deploy_dir = "/bin";
  log_dir = "/log";
  job_name = "toy";
  corpus_dir = "/corpus";
  vocab_file = "/vocab";
  master = "m:1";
  retry = pos 1;
  squads =
      record { name = "a"; coordinator = "c:1"; loaders = "l:1" ∷ []; samplers = "s:1" ∷ [] }
      ∷ record { name = "b"; coordinator = "c:2"; loaders = "l:2" ∷ []; samplers = "s:2" ∷ [] }
      ∷ [];
  aggregators = "g:1" ∷ [];
  machines = [];
  num_v_shards = pos 1;
  job_dir = "/job";
  logll_period = pos 2;
  num_topics = pos 2;
  topic_prior = tt;
  word_prior = tt;
}

validate_example :
    (Config.validate job ≡ ok (none, job))
    ↔ (IsValid job × (job ≡ record job { num_v_shards = pos 1 }))
validate_example = validate_iff job job

squad_id_example : IsFirst (λ s. s.coordinator == "c:2") job.squads (Config.squad_id job "c:2")
squad_id_example = squad_id-IsFirst job "c:2"

sampler_id_example :
    IsMemberId (λ s. s.samplers) job "c:2" "s:2" (Config.sampler_id job "c:2" "s:2")
sampler_id_example = sampler_id-IsMemberId job "c:2" "s:2"

loader_id_example : IsMemberId (λ s. s.loaders) job "c:2" "l:3" (Config.loader_id job "c:2" "l:3")
loader_id_example = loader_id-IsMemberId job "c:2" "l:3"

-- `parallel.For` by calls in turn, the first error ending it; at most `fuel` of them.
in_turn :
    (S : Type 0)
    → (ℤ → S → Run (Option (Unit {0}) × S))
    → ℕ
    → ℤ
    → ℤ
    → S
    → Run (Option (Unit {0}) × S)
in_turn S f zero a b s = ok (none, s)
in_turn S f (suc fuel) a b s =
    if ltb_ℤ a b
    then (f a s >>= λ (e, s'). elim e [
      | some x ↦ ok (some x, s')
      | none ↦ in_turn S f fuel (a +ℤ pos 1) b s'
    ])
    else ok (none, s)

-- An outside world without state, in which nothing fails: no iteration is completed, the corpus is
-- two files, and no aggregator has counted anything.
abbrev quiet : World Unit
quiet = record {
  State = Unit;
  Error = Unit;
  join = λ d f. f;
  iteration_name = λ i. "00000";
  shard_name = λ p v n. p;
  is_number = λ s. false;
  scan_number = λ s. pos 0;
  exists = λ s f. (false, none);
  list = λ s d.
      (record { name = "x"; is_dir = false } ∷ record { name = "y"; is_dir = false } ∷ [], none);
  make_dir = λ s d. (none, s);
  get_global_hist = λ a h s. (none, (h, s));
  set_global_hist = λ a h s. (none, s);
  save = λ a i v n s. (none, s);
  init_loader = λ l f s. (none, s);
  dial = λ a s. (none, s);
  close = λ a s. (none, s);
  kill = λ a s. (none, s);
  launch = λ a d p args l r s. (none, s);
  encode = λ c. ("{}", none);
  call = λ a m x s. (none, s);
  listen = λ a s. (none, s);
  init_aggregator = λ a m s. (none, s);
  scan_file = λ s f. inr ("a b" ∷ "b" ∷ [], none);
  create = λ f s. (none, s);
  encode_document = λ f d s. (none, s);
  encode_model = λ f m s. (none, s);
  split = λ s x. s ∷ [];
  fields = λ s. s ∷ [];
  parallel_for = λ S a b c f s. in_turn S f 8 a b s;
  range = λ m. m;
  range-perm = λ m. Permᴰ.refl m;
}

group_shards_example : IsGrouping 2 (pos 0) (pos 0) ("x" ∷ "y" ∷ "z" ∷ []) [] (
    group_shards
      (pos 2)
      (pos 0)
      (pos 0)
      0
      (record { name = "x"; is_dir = false }
        ∷ record { name = "y"; is_dir = false }
        ∷ record { name = "z"; is_dir = false }
        ∷ [])
      []
      none)
group_shards_example =
    group_shards-IsGrouping 1 (pos 0) (pos 0) (record { name = "x"; is_dir = false })
      (record { name = "y"; is_dir = false } ∷ record { name = "z"; is_dir = false } ∷ []) []

abbrev blank : Task
blank = record { shards = []; coord = ""; iteration = pos 0; action = pos 0 }

abbrev first_task : Task
first_task = record { shards = "x" ∷ []; coord = ""; iteration = pos 0; action = pos 0 }

-- A master with one pending task, and the reply to the first squad.
abbrev waiting : Master Unit
waiting = record {
  cfg = job;
  pending = some first_task ∷ [];
  working = [];
  aggregators = [];
  iteration = pos 0;
}

abbrev given : Task
given = record first_task { coord = "c:1" }

abbrev reply : Reply quiet
reply = record {
  error = none;
  task = given;
  master = record waiting { pending = []; working = ("c:1", given) ∷ [] };
  state = tt;
}

first_call : register_squad quiet waiting tt "c:1" blank ≡ ok reply
unfolding register_squad
first_call = refl

register_squad_example :
    register_squad quiet reply.master tt "c:1" first_task
    ≡ ok (record { error = none; task = reply.task; master = reply.master; state = tt })
register_squad_example =
    register_squad-repeat quiet waiting tt tt "c:1" blank first_task reply first_call refl

abbrev started_master : Master Unit
started_master = record {
  cfg = job;
  pending =
      some (record { shards = "x" ∷ []; coord = ""; iteration = pos 0; action = pos 0 })
      ∷ some (record { shards = "y" ∷ []; coord = ""; iteration = pos 0; action = pos 0 })
      ∷ [];
  working = [];
  aggregators = [];
  iteration = pos 0;
}

initial : Queue.new_master quiet job tt ≡ ok (none, some started_master, tt)
unfolding Queue.new_master Config.validate Config.check_squads Config.all_squad_errors
    Config.squad_errors initialize_tasks index_rem new_task ◌+ℤ◌
initial = refl

abbrev second_reply : Reply quiet
second_reply = record {
  error = none;
  task = given;
  master = record started_master {
    pending =
        some (record { shards = "y" ∷ []; coord = ""; iteration = pos 0; action = pos 0 }) ∷ [];
    working = ("c:1", given) ∷ [];
  };
  state = tt;
}

second_call : register_squad quiet started_master tt "c:1" blank ≡ ok second_reply
unfolding register_squad
second_call = refl

reachable : Reachable quiet second_reply.master
reachable =
    Reachable.registered started_master tt "c:1" blank second_reply
      (Reachable.started job tt tt started_master initial) second_call

Reachable_example : IsAssigned second_reply.master.working
Reachable_example = Reachable-IsAssigned quiet second_reply.master reachable

abbrev squad_coordinator : Coordinator Unit
squad_coordinator = record {
  cfg = job;
  me = "c:1";
  squad = record { name = "a"; coordinator = "c:1"; loaders = "l:1" ∷ []; samplers = "s:1" ∷ [] };
  loaders = [];
  samplers = [];
}

register_loader_example :
    IsRegistered quiet squad_coordinator "l:1" 1 (register_loader quiet squad_coordinator tt "l:1")
register_loader_example = register_loader-IsRegistered quiet squad_coordinator tt "l:1" 1 refl

abbrev words : Vocabulary
words = record { tokens = "apple" ∷ "iphone" ∷ []; ids = none }

id-token_example :
    ((i : ℕ) × ((Vocab.id words "iphone").0 ≡ pos i) × (Vocab.token words (pos i) ≡ ok "iphone"))
    ⊎ (((Vocab.id words "iphone").0 ≡ negsuc 0)
        × ((j : ℕ) → Vocab.token words (pos j) ≢ ok "iphone"))
id-token_example = id-token words "iphone" (inl refl) (omega arith)
