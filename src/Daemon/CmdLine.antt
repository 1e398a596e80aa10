-- ===== src/Daemon/CmdLine.antt =====
-- src/daemon/mfcmdline.cpp
use touch_feedback.Base.{
  Bool, true, false, ◌||◌, ◌≡◌, refl, Option, none, some, List, [], ◌∷◌, ◌++◌, arith, if◌then◌else◌,
}
use touch_feedback.Base.Text.{Text, codes}
use touch_feedback.Theme.{has_text}

pub record Flags : Type 0 where
  pub daemon_mode : Bool
  pub log : Bool
  pub syslog : Bool
  pub verbose : Bool

abbrev pub all_off : Flags
all_off = record { daemon_mode = false; log = false; syslog = false; verbose = false }

abbrev turn_on : Bool → Bool → Bool
turn_on found old = if found then true else old

-- `none` stands for the result `false`, after the help is printed.
unfoldable pub process_cmd_line_arguments : Flags → List Text → Option Flags
process_cmd_line_arguments f arguments =
    if has_text (codes "--help") arguments
    then none
    else some (record {
      daemon_mode = turn_on (has_text (codes "--daemon") arguments) f.daemon_mode;
      log = turn_on (has_text (codes "--log") arguments) f.log;
      syslog = turn_on (has_text (codes "--syslog") arguments) f.syslog;
      verbose = turn_on (has_text (codes "--verbose") arguments) f.verbose;
    })

-- The flags that either has on, unless one of them asks for help.
abbrev pub either : Option Flags → Option Flags → Option Flags
either none o = none
either (some f) none = none
either (some f) (some g) = some (record {
  daemon_mode = f.daemon_mode || g.daemon_mode;
  log = f.log || g.log;
  syslog = f.syslog || g.syslog;
  verbose = f.verbose || g.verbose;
})

has_text-append :
    (t : Text) (xs ys : List Text) → has_text t (xs ++ ys) ≡ (has_text t xs || has_text t ys)
has_text-append t [] ys = refl
has_text-append t (x ∷ xs) ys = ground (arith, has_text-append t xs ys)

turn_on-append :
    (t : Text) (xs ys : List Text) (old : Bool)
    → turn_on (has_text t (xs ++ ys)) old
      ≡ (turn_on (has_text t xs) old || turn_on (has_text t ys) old)
turn_on-append t xs ys old = rw has_text-append (from (has_text t xs) (has_text t ys) old)
  where
    from : (a b c : Bool) → turn_on (a || b) c ≡ (turn_on a c || turn_on b c)
    from a b c = ground arith

either-if :
    (h k : Bool) (f g : Flags)
    → (if h || k then none else either (some f) (some g))
      ≡ either (if h then none else some f) (if k then none else some g)
either-if true k f g = refl
either-if false true f g = refl
either-if false false f g = refl

-- Two lists of arguments given together turn on what either turns on, and ask for help if either
-- does: the order of the arguments and their repetition do not matter.
process_cmd_line_arguments-append :
    (f : Flags) (xs ys : List Text)
    → process_cmd_line_arguments f (xs ++ ys)
      ≡ either (process_cmd_line_arguments f xs) (process_cmd_line_arguments f ys)
unfolding process_cmd_line_arguments
process_cmd_line_arguments-append f xs ys =
    rw
      (
        has_text-append (codes "--help") xs ys,
        turn_on-append (codes "--daemon") xs ys,
        turn_on-append (codes "--log") xs ys,
        turn_on-append (codes "--syslog") xs ys,
        turn_on-append (codes "--verbose") xs ys,
      )
      (either-if (has_text (codes "--help") xs) (has_text (codes "--help") ys) _ _)
