-- ===== src/Daemon/Signals.antt =====
-- src/daemon/mfsignalhandler.cpp: what the process does with each signal. The map `signal2fd` and
-- the actions of the process are shared by all handlers. `sigaction` fails for the signals that a
-- parameter tells, and then changes nothing.
use touch_feedback.Base.{
  ℕ, Bool, true, false, Option, none, some, List, [], ◌∷◌, ◌++◌, ◌==◌, if◌then◌else◌,
}

-- A handler: the signals it watches, and its two sockets.
pub record SignalHandler : Type 0 where
  pub watch_over : List ℕ
  pub fd0 : ℕ
  pub fd1 : ℕ

abbrev pub FdMap : Type 0
FdMap = List (ℕ × ℕ)

unfoldable pub find_fd : ℕ → FdMap → Option ℕ
find_fd s [] = none
find_fd s ((t, fd) ∷ m) = if t == s then some fd else find_fd s m

unfoldable pub insert_fd : ℕ → ℕ → FdMap → FdMap
insert_fd s fd [] = (s, fd) ∷ []
insert_fd s fd ((t, old) ∷ m) = if t == s then (s, fd) ∷ m else (t, old) ∷ insert_fd s fd m

unfoldable pub remove_fd : ℕ → FdMap → FdMap
remove_fd s [] = []
remove_fd s ((t, fd) ∷ m) = let rest = remove_fd s m in if t == s then rest else (t, fd) ∷ rest

-- `SIG_DFL` and `onSignal`: what `sigaction` is called with.
pub data Action : Type 0 where
  sig_dfl to_on_signal : Action

pub record Signals : Type 0 where
  pub signal2fd : FdMap
  pub action : ℕ → Action

abbrev pub set_action : ℕ → Action → (ℕ → Action) → ℕ → Action
set_action s a action q = if s == q then a else action q

unfoldable pub new_signal_handler : SignalHandler
new_signal_handler = record { watch_over = []; fd0 = 0; fd1 = 0 }

-- `catchSignal`
unfoldable pub catch_signal : ℕ → SignalHandler → SignalHandler
catch_signal s h = record h { watch_over = h.watch_over ++ s ∷ [] }

-- The loop of `init`: it stops at the first signal whose `sigaction` fails.
unfoldable pub install : (ℕ → Bool) → ℕ → List ℕ → Signals → Bool × Signals
unfolding insert_fd
install sigaction_fails fd [] k = (true, k)
install sigaction_fails fd (s ∷ signals) k =
    let k' : Signals = record {
      signal2fd = insert_fd s fd k.signal2fd;
      action = set_action s to_on_signal k.action;
    } in
    let rest = install sigaction_fails fd signals k' in
    if sigaction_fails s then (false, k) else rest

-- `init`, with the pair that `socketpair` gives, if it does.
unfoldable pub init_handler :
    (ℕ → Bool) → Option (ℕ × ℕ) → ℕ → SignalHandler → Signals → Bool × SignalHandler × Signals
unfolding catch_signal install
init_handler sigaction_fails pair s h k =
    let h' = if s == 0 then h else catch_signal s h in
    elim pair [
      | none ↦ (false, h', k)
      | some (a, b) ↦
          let (done, k') = install sigaction_fails a h'.watch_over k in
          (done, record h' { fd0 = a; fd1 = b }, k')
    ]

-- `onSignal`: the descriptor that the signal is written to.
unfoldable pub on_signal : ℕ → FdMap → Option ℕ
unfolding find_fd
on_signal s m = find_fd s m

-- What becomes of a signal: the system's default, the write of `onSignal` to a descriptor, or
-- nothing, if `onSignal` does not find it.
pub data Delivery : Type 0 where
  by_default dropped : Delivery
  written_to : ℕ → Delivery

abbrev found : Option ℕ → Delivery
found none = dropped
found (some fd) = written_to fd

unfoldable pub deliver : ℕ → Signals → Delivery
unfolding on_signal
deliver s k = elim (k.action s) [
  | sig_dfl ↦ by_default
  | to_on_signal ↦ found (on_signal s k.signal2fd)
]

-- The loop of the destructor. It does not look at what `sigaction` returns.
unfoldable pub uninstall : (ℕ → Bool) → List ℕ → Signals → Signals
unfolding remove_fd
uninstall sigaction_fails [] k = k
uninstall sigaction_fails (s ∷ signals) k = uninstall sigaction_fails signals (record {
  signal2fd = remove_fd s k.signal2fd;
  action = if sigaction_fails s then k.action else set_action s sig_dfl k.action;
})
