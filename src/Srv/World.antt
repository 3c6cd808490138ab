-- ===== src/Srv/World.antt =====
-- What the services use and do not implement: the file system, the formats of the names in it, the
-- RPC clients, prism, `parallel.For` and the order in which `range` visits the working tasks.
use mathlib.Core.List.{Permᴰ}
use open_peacock.Prelude.{◌⊎◌, Bool, Option, List, String}
use open_peacock.Prelude.Int.{ℤ}
use open_peacock.Prelude.Run.{Run}
use open_peacock.Map.{Map}
use open_peacock.Hist.Dense.{Dense}
use open_peacock.Hist.Interface.{Hist}
use open_peacock.Gibbs.Model.{Model}
use open_peacock.Gibbs.Document.{Document}
use open_peacock.Srv.Config.{Config}
use open_peacock.Srv.Task.{Task}

-- `file.Info`
pub record FileInfo : Type 0 where
  pub name : String
  pub is_dir : Bool

-- `F` is float64. A missing error is nil.
pub record World (F : Type 0) : Type 1 where
  -- the state of everything outside the master, and the errors of what it calls
  pub State : Type 0
  pub Error : Type 0
  -- `path.Join`, and the formats `%05d` and `%s-%05d-of-%05d`
  pub join : String → String → String
  pub iteration_name : ℤ → String
  pub shard_name : String → ℤ → ℤ → String
  -- the regular expression `^[0-9]+$`, and `Sscanf` with `%05d`
  pub is_number : String → Bool
  pub scan_number : String → ℤ
  -- `file.Exists`, `file.List` and `file.MkDir`
  pub exists : State → String → Bool × Option Error
  pub list : State → String → List FileInfo × Option Error
  pub make_dir : State → String → Option Error × State
  -- the calls of an aggregator: the histogram that it overwrites, the one that it receives, and the
  -- iteration, shard and number of shards to save
  pub get_global_hist : String → Dense → State → Option Error × (Dense × State)
  pub set_global_hist : String → Dense → State → Option Error × State
  pub save : String → ℤ → ℤ → ℤ → State → Option Error × State
  -- the call `Loader.Init` of a loader on a shard
  pub init_loader : String → String → State → Option Error × State
  -- `rpc.DialHTTP` and `Close`, `prism.Kill`, and `prism.Launch` with the directory, the program, its arguments,
  -- the directory of the logs and the number of trials
  pub dial : String → State → Option Error × State
  pub close : String → State → Option Error × State
  pub kill : String → State → Option Error × State
  pub launch : String → String → String → List String → String → ℤ → State → Option Error × State
  -- `Config.Encode`
  pub encode : Config F → String × Option Error
  -- the calls by which a process registers: the server, the method and the argument; `net.Listen`
  pub call : String → String → String → State → Option Error × State
  pub listen : String → State → Option Error × State
  -- the call `Aggregator.Init` with a shard, nil as none
  pub init_aggregator : String → Option (Map Hist) → State → Option Error × State
  -- a file that is opened and scanned: the lines, and the error that ended the scan; `file.Create`,
  -- and `Encode` of a document and of a model into an open file
  pub scan_file : State → String → Error ⊎ (List String × Option Error)
  pub create : String → State → Option Error × State
  pub encode_document : String → Document → State → Option Error × State
  pub encode_model : String → Model F → State → Option Error × State
  -- `strings.Split` at a separator, and `strings.Fields`
  pub split : String → String → List String
  pub fields : String → List String
  -- `parallel.For(from, to, step, f)`, where `f` acts on a state that its calls share
  pub parallel_for :
      (S : Type 0) → ℤ → ℤ → ℤ → (ℤ → S → Run (Option Error × S)) → S → Run (Option Error × S)
  -- the order of `range` on the working tasks, each once
  pub range : List (String × Task) → List (String × Task)
  pub range-perm : (m : List (String × Task)) → Permᴰ m (range m)
