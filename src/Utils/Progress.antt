-- ===== src/Utils/Progress.antt =====
-- core/utils/utils.go: the record of the iterations, and the points of its figures; and
-- cmd/plot/plot.go: the points of a log file. Times and plotting are not part of the program.
pub mod Laws
use open_peacock.Prelude.{
  ℕ, zero, suc, Bool, true, false, ◌&&◌, not, Option, none, some, List, [], ◌∷◌, ◌++◌, length,
  get_elem?, set, if◌then◌else◌, ltb,
}
use open_peacock.Prelude.Int.{ℤ, pos, leb_ℤ}
use open_peacock.Prelude.Word.{max_int64}
use open_peacock.Prelude.Run.{Run, ok, panic, fatal, ◌>>=◌, or_panic}

-- A time and a duration are what `time.Now` and `time.Since` give; a new iteration has the zero ones.
pub record Iteration (T D F : Type 0) : Type 0 where
  pub start_time : T
  pub duration : D
  pub reported_perplexity : F

module _ {T D F : Type 0} (zero_duration : D) (zero_float : F) where
  -- Start, at the time `now`
  unfoldable pub start : List (Iteration T D F) → T → List (Iteration T D F)
  start is now =
      is
      ++ record { start_time = now; duration = zero_duration; reported_perplexity = zero_float }
        ∷ []

module _ {T D F : Type 0} where
  -- End, with the time since a start
  unfoldable pub end : (T → D) → List (Iteration T D F) → F → Run (List (Iteration T D F))
  end since [] perplexity = panic
  end since (i ∷ []) perplexity =
      ok (record i { duration = since i.start_time; reported_perplexity = perplexity } ∷ [])
  end since (i ∷ j ∷ is) perplexity = end since (j ∷ is) perplexity >>= λ rest. ok (i ∷ rest)

  -- The points of newPerplexityFigureHandler from index `i` on.
  unfoldable pub perplexity_points : (F → Bool) → ℕ → List (Iteration T D F) → List (ℕ × F)
  perplexity_points positive i [] = []
  perplexity_points positive i (x ∷ is) =
      let rest = perplexity_points positive (suc i) is in
      if positive x.reported_perplexity then (i, x.reported_perplexity) ∷ rest else rest

  -- The points of newDurationFigureHandler from index `i` on.
  unfoldable pub duration_points : (D → Bool) → (D → F) → ℕ → List (Iteration T D F) → List (ℕ × F)
  duration_points positive minutes i [] = []
  duration_points positive minutes i (x ∷ is) =
      let rest = duration_points positive minutes (suc i) is in
      if ltb 0 i && positive x.duration then (i, minutes x.duration) ∷ rest else rest

-- A line of a log file: it does not match, a number of it cannot be parsed, or it gives an iteration
-- and its perplexity.
pub data LogLine (F : Type 0) : Type 0 where
  other malformed : LogLine F
  point : ℤ → F → LogLine F

-- The loop of plotLog: an iteration that is not above the one before starts the points anew.
unfoldable pub log_points : {F : Type 0} → ℤ → List (ℤ × F) → List (LogLine F) → Run (List (ℤ × F))
log_points prev points [] = ok points
log_points prev points (other ∷ lines) = log_points prev points lines
log_points prev points (malformed ∷ lines) = fatal
log_points prev points (point iter y ∷ lines) =
    log_points iter ((if leb_ℤ iter prev then [] else points) ++ (iter, y) ∷ []) lines

-- plotLog up to the plotting
unfoldable pub plot_log : {F : Type 0} → List (LogLine F) → Run (List (ℤ × F))
unfolding log_points
plot_log lines = log_points max_int64 [] lines
