-- ===== src/Tests/Data.antt =====
-- Test data: conversions of one digit, plugins that load everything, two themes, two backends.
use touch_feedback.Base.{ℕ, ◌+◌, ◌-◌, true, false, Option, none, some, [], ◌∷◌, if◌then◌else◌}
use touch_feedback.Base.Int.{ℤ, pos, negsuc}
use touch_feedback.Base.Text.{Text, Qt, codes, text_eq, contains_text}
use touch_feedback.Backend.{Plugin, Connector, connected}
use touch_feedback.World.{Platform, World}

-- One digit.
abbrev pub digit : Text → Option ℤ
digit [] = none
digit (c ∷ []) = some (pos (c - 48))
digit (c ∷ d ∷ s) = none

abbrev pub hex : ℤ → Text
hex (pos n) = (n + 48) ∷ []
hex (negsuc n) = b'-' ∷ (n + 49) ∷ []

abbrev pub digits_qt : Qt
digits_qt = record {
  to_int = digit;
  number = λ n. (n + 48) ∷ [];
  number_hex = hex;
  equal_any_case = text_eq;
}

-- Every backend loads every directory.
abbrev pub eager : Plugin
eager = record {
  name = λ b. (b + 65) ∷ [];
  detect_hardware = λ b. true;
  load_handle = λ calls b dir. (true, some 7);
}

-- A theme "blue" on "base", and a theme "loop" that names itself.
abbrev pub demo : Platform
demo = record {
  qt = digits_qt;
  plugin = eager;
  theme_dir_prefix = codes "/t";
  dir_exists = λ dir. true;
  file_exists = λ file. true;
  sub_dirs = λ dir. codes "press" ∷ codes "press-big" ∷ [];
  inherits = λ file.
      if contains_text file (codes "loop") then some (codes "loop") else some (codes "base");
}

abbrev pub online : Connector
online = record { failed_connections = 0; current_state = connected; timer = none; attempt = false }

abbrev pub two_backends : World
two_backends = record {
  backend_list = 3 ∷ 4 ∷ [];
  non_threaded_backend_count = 1;
  backend_volumes = [] ∷ [] ∷ [] ∷ [];
  current_theme_name = codes "blue";
  feedback_handle_hash = [];
  connector = λ b. online;
  object = λ o. none;
  next_object = 0;
  calls = [];
}

abbrev pub nobody : ℕ → ℕ
nobody o = 0
