-- ===== src/Config.antt =====
-- src/lib/mfconfig.cpp: the limits, which are read from the configuration file when one of them is
-- asked for first.
pub mod Reads
use touch_feedback.Base.{Bool, true, false, not, Option, none, some, if◌then◌else◌}
use touch_feedback.Base.Int.{ℤ, pos, negsuc}
use touch_feedback.Base.Text.{Text, Qt, codes}

-- The static members.
pub record Config : Type 0 where
  pub feedback_latency_limit : ℤ
  pub feedback_duration_limit : ℤ
  pub loaded : Bool

abbrev pub initial_config : Config
initial_config = record {
  feedback_latency_limit = negsuc 0;
  feedback_duration_limit = negsuc 0;
  loaded = false;
}

-- The text of a key in the file, if there is one.
abbrev pub Settings : Type 0
Settings = Text → Option Text

-- `settings.value(key, QVariant(n)).toInt()`: a text that is no number is 0.
unfoldable pub value : Qt → Settings → Text → ℤ → ℤ
value qt settings key n = elim (settings key) [
  | none ↦ n
  | some text ↦ elim (qt.to_int text) [ none ↦ pos 0 | some i ↦ i ]
]

-- `load`, which reads the file whatever has been loaded.
unfoldable pub load : Qt → Settings → Config → Config
unfolding value
load qt settings c = record {
  feedback_latency_limit = value qt settings (codes "feedback-latency-limit") (pos 2000);
  feedback_duration_limit = value qt settings (codes "feedback-duration-limit") (pos 1000);
  loaded = true;
}

-- `feedbackLatencyLimit`
unfoldable pub latency_limit : Qt → Settings → Config → ℤ × Config
unfolding load
latency_limit qt settings c =
    let c' = if not c.loaded then load qt settings c else c in (c'.feedback_latency_limit, c')

-- `feedbackDurationLimit`
unfoldable pub duration_limit : Qt → Settings → Config → ℤ × Config
unfolding load
duration_limit qt settings c =
    let c' = if not c.loaded then load qt settings c else c in (c'.feedback_duration_limit, c')
