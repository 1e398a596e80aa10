-- ===== src/Config/Reads.antt =====
-- What the limits are over the run of the daemon.
use touch_feedback.Base.{◌≡◌, refl, ap, List, [], ◌∷◌}
use touch_feedback.Base.Int.{ℤ, pos}
use touch_feedback.Base.Text.{Qt, codes}
use touch_feedback.Config.{
  Config, initial_config, Settings, value, load, latency_limit, duration_limit,
}

pub data Query : Type 0 where
  asks_latency asks_duration : Query

-- A query, made when the file holds `settings`.
abbrev pub ask : Qt → Query → Settings → Config → ℤ × Config
ask qt asks_latency settings c = latency_limit qt settings c
ask qt asks_duration settings c = duration_limit qt settings c

-- The answers to queries, each with what the file holds when it is made.
abbrev pub answers : Qt → List (Query × Settings) → Config → List ℤ
answers qt [] c = []
answers qt ((q, settings) ∷ queries) c =
    let (n, c') = ask qt q settings c in n ∷ answers qt queries c'

-- The answer that a file gives: its value, or the default.
abbrev pub answer_of : Qt → Settings → Query → ℤ
answer_of qt settings asks_latency = value qt settings (codes "feedback-latency-limit") (pos 2000)
answer_of qt settings asks_duration = value qt settings (codes "feedback-duration-limit") (pos 1000)

abbrev pub answers_of : Qt → Settings → List (Query × Settings) → List ℤ
answers_of qt settings [] = []
answers_of qt settings ((q, s) ∷ queries) = answer_of qt settings q ∷ answers_of qt settings queries

module _ (qt : Qt) where
  answers_loaded :
      (settings : Settings) (c : Config) (queries : List (Query × Settings))
      → answers qt queries (load qt settings c) ≡ answers_of qt settings queries
  unfolding load latency_limit duration_limit
  answers_loaded settings c [] = refl
  answers_loaded settings c ((asks_latency, s) ∷ queries) =
      ap (λ (l : List ℤ). answer_of qt settings asks_latency ∷ l)
        (answers_loaded settings c queries)
  answers_loaded settings c ((asks_duration, s) ∷ queries) =
      ap (λ (l : List ℤ). answer_of qt settings asks_duration ∷ l)
        (answers_loaded settings c queries)

  -- From the daemon's start, every query of either limit, in any order, is answered by what the file
  -- held at the first query, however it changes later.
  pub answers_first :
      (q : Query) (settings : Settings) (queries : List (Query × Settings))
      → answers qt ((q, settings) ∷ queries) initial_config
        ≡ answers_of qt settings ((q, settings) ∷ queries)
  unfolding load latency_limit duration_limit
  answers_first asks_latency settings queries =
      ap (λ (l : List ℤ). answer_of qt settings asks_latency ∷ l)
        (answers_loaded settings initial_config queries)
  answers_first asks_duration settings queries =
      ap (λ (l : List ℤ). answer_of qt settings asks_duration ∷ l)
        (answers_loaded settings initial_config queries)
