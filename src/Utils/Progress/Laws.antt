-- ===== src/Utils/Progress/Laws.antt =====
-- cmd/plot/plot.go: the points of the last training in a log file.
use open_peacock.Prelude.{◌≡◌, subst, inl, inr, false, List, [], ◌∷◌, ◌++◌, arith, Bool-cases}
use open_peacock.Prelude.Int.{ℤ, ◌≤ℤ◌, ◌<ℤ◌, leb_ℤ}
use open_peacock.Prelude.Word.{max_int64}
use open_peacock.Prelude.Run.{ok, ok_injective}
use open_peacock.Utils.Progress.{LogLine, other, malformed, point, log_points, plot_log}

module _ {F : Type 0} where
  -- Every iteration of the list is below `n`.
  abbrev AllBelow : ℤ → List (ℤ × F) → Type 0
  AllBelow n [] = Unit
  AllBelow n (p ∷ ps) = (p.0 <ℤ n) × AllBelow n ps

  abbrev AllAbove : ℤ → List (ℤ × F) → Type 0
  AllAbove n [] = Unit
  AllAbove n (p ∷ ps) = (n <ℤ p.0) × AllAbove n ps

  -- The iterations rise along the list.
  abbrev pub IsRising : List (ℤ × F) → Type 0
  IsRising [] = Unit
  IsRising (p ∷ ps) = AllAbove p.0 ps × IsRising ps

  abbrev AllUpTo : ℤ → List (ℤ × F) → Type 0
  AllUpTo n [] = Unit
  AllUpTo n (p ∷ ps) = (p.0 ≤ℤ n) × AllUpTo n ps

  AllAbove-snoc :
      (n m : ℤ) (ps : List (ℤ × F)) (y : F)
      → n <ℤ m
      → AllAbove n ps
      → AllAbove n (ps ++ (m, y) ∷ [])
  AllAbove-snoc n m [] y lt h = (lt, tt)
  AllAbove-snoc n m (p ∷ ps) y lt h = (h.0, AllAbove-snoc n m ps y lt h.1)

  IsRising-snoc :
      (n m : ℤ) (ps : List (ℤ × F)) (y : F)
      → n <ℤ m
      → IsRising ps
      → AllUpTo n ps
      → IsRising (ps ++ (m, y) ∷ [])
  IsRising-snoc n m [] y lt h b = (tt, tt)
  IsRising-snoc n m (p ∷ ps) y lt h b =
      (AllAbove-snoc p.0 m ps y (omega (arith, lt, b.0)) h.0, IsRising-snoc n m ps y lt h.1 b.1)

  AllUpTo-snoc :
      (n m : ℤ) (ps : List (ℤ × F)) (y : F) → n <ℤ m → AllUpTo n ps → AllUpTo m (ps ++ (m, y) ∷ [])
  AllUpTo-snoc n m [] y lt h = (omega arith, tt)
  AllUpTo-snoc n m (p ∷ ps) y lt h = (omega (arith, lt, h.0), AllUpTo-snoc n m ps y lt h.1)

  log_points-IsRising :
      (prev : ℤ) (points ps : List (ℤ × F)) (lines : List (LogLine F))
      → IsRising points
      → AllUpTo prev points
      → log_points prev points lines ≡ ok ps
      → IsRising ps
  unfolding log_points
  log_points-IsRising prev points ps [] h b e = subst IsRising (ok_injective e) h
  log_points-IsRising prev points ps (other ∷ lines) h b e =
      log_points-IsRising prev points ps lines h b e
  log_points-IsRising prev points ps (malformed ∷ lines) h b e = cc
  log_points-IsRising prev points ps (point iter y ∷ lines) h b e =
      elim (Bool-cases (leb_ℤ iter prev)) [
        | inl q ↦
            log_points-IsRising iter ((iter, y) ∷ []) ps lines (tt, tt) (omega arith, tt)
              (rw (log_points, q) at e)
        | inr q ↦
            let lt = above iter prev q in
            log_points-IsRising iter (points ++ (iter, y) ∷ []) ps lines
              (IsRising-snoc prev iter points y lt h b) (AllUpTo-snoc prev iter points y lt b)
              (rw (log_points, q) at e)
      ]
    where
      above : (i p : ℤ) → leb_ℤ i p ≡ false → p <ℤ i
      above i p e = ground arith

  -- The points that plotLog plots have rising iterations, however often the training was started
  -- again in the log file.
  pub plot_log-IsRising :
      (lines : List (LogLine F)) (ps : List (ℤ × F)) → plot_log lines ≡ ok ps → IsRising ps
  unfolding plot_log
  plot_log-IsRising lines ps e = log_points-IsRising max_int64 [] ps lines tt tt e
