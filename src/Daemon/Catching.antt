-- ===== src/Daemon/Catching.antt =====
-- Which handler a signal reaches, from `init` to the destructor of `MfSignalHandler`.
use touch_feedback.Base.{
  ℕ, ◌≡◌, refl, Bool, true, false, none, some, List, [], ◌∷◌, ◌++◌, arith, ◌==◌, if◌then◌else◌,
  contains, ap, sym,
}
use touch_feedback.Daemon.Signals.{
  SignalHandler, FdMap, Signals, sig_dfl, to_on_signal, set_action, by_default, written_to, deliver,
  find_fd, insert_fd, remove_fd, install, init_handler, catch_signal, on_signal, uninstall,
}

find_fd-insert_fd :
    (s q fd : ℕ) (m : FdMap)
    → find_fd q (insert_fd s fd m) ≡ (if s == q then some fd else find_fd q m)
unfolding find_fd insert_fd
find_fd-insert_fd s q fd [] = refl
find_fd-insert_fd s q fd ((t, old) ∷ m) = ground (arith, find_fd-insert_fd s q fd m)

find_fd-remove_fd :
    (s q : ℕ) (m : FdMap) → find_fd q (remove_fd s m) ≡ (if s == q then none else find_fd q m)
unfolding find_fd remove_fd
find_fd-remove_fd s q [] = ground arith
find_fd-remove_fd s q ((t, fd) ∷ m) = ground (arith, find_fd-remove_fd s q m)

deliver-install :
    (fails : ℕ → Bool) (fd q : ℕ) (signals : List ℕ) (k : Signals)
    → (install fails fd signals k).0 ≡ true
    → deliver q (install fails fd signals k).1
      ≡ (if contains q signals then written_to fd else deliver q k)
unfolding install deliver on_signal
deliver-install fails fd q [] k done = refl
deliver-install fails fd q (s ∷ signals) k done =
    let k' : Signals = record {
      signal2fd = insert_fd s fd k.signal2fd;
      action = set_action s to_on_signal k.action;
    } in
    ground (arith, deliver-install fails fd q signals k', find_fd-insert_fd s q fd k.signal2fd)

install-works :
    (fails : ℕ → Bool) (fd q : ℕ) (signals : List ℕ) (k : Signals)
    → (install fails fd signals k).0 ≡ true
    → contains q signals ≡ true
    → fails q ≡ false
unfolding install
install-works fails fd q [] k done h = cc
install-works fails fd q (s ∷ signals) k done h =
    let k' : Signals = record {
      signal2fd = insert_fd s fd k.signal2fd;
      action = set_action s to_on_signal k.action;
    } in
    ground (arith, install-works fails fd q signals k')

deliver-uninstall :
    (fails : ℕ → Bool) (q : ℕ) (signals : List ℕ) (k : Signals)
    → (contains q signals ≡ true → fails q ≡ false)
    → deliver q (uninstall fails signals k)
      ≡ (if contains q signals then by_default else deliver q k)
unfolding uninstall deliver on_signal
deliver-uninstall fails q [] k w = refl
deliver-uninstall fails q (s ∷ signals) k w =
    let k' : Signals = record {
      signal2fd = remove_fd s k.signal2fd;
      action = if fails s then k.action else set_action s sig_dfl k.action;
    } in
    let works_later : contains q signals ≡ true → fails q ≡ false = λ h. w (ground (arith, h)) in
    ground (
      arith,
      w,
      deliver-uninstall fails q signals k' works_later,
      find_fd-remove_fd s q k.signal2fd,
    )

-- The signals that a handler watches once `init` is called with a signal, or with none.
abbrev pub watched : ℕ → SignalHandler → List ℕ
watched s h = if s == 0 then h.watch_over else h.watch_over ++ s ∷ []

-- Once `init` has succeeded with a pair of sockets, the handler watches the signals that it watched
-- before and the one that `init` was called with, if any, and each of them is written to its first
-- socket; every other signal goes where it went before. Once the handler is destroyed, each signal
-- that it watched has the system's default action again, and the others go where they went before.
pub init_handler-uninstall :
    (fails : ℕ → Bool) (a b s q : ℕ) (h : SignalHandler) (k : Signals)
    → (init_handler fails (some (a, b)) s h k).0 ≡ true
    → ((init_handler fails (some (a, b)) s h k).1
        ≡ record { watch_over = watched s h; fd0 = a; fd1 = b })
      × (deliver q (init_handler fails (some (a, b)) s h k).2
          ≡ (if contains q (watched s h) then written_to a else deliver q k))
      × (deliver q (
            uninstall fails
              (init_handler fails (some (a, b)) s h k).1.watch_over
              (init_handler fails (some (a, b)) s h k).2)
          ≡ (if contains q (watched s h) then by_default else deliver q k))
unfolding init_handler catch_signal
init_handler-uninstall fails a b s q h k done =
    let h' : SignalHandler = if s == 0 then h else catch_signal s h in
    let k' = (install fails a h'.watch_over k).1 in
    let same : h'.watch_over ≡ watched s h = ground arith in
    let caught = deliver-install fails a q h'.watch_over k done in
    let works = install-works fails a q h'.watch_over k done in
    let left = deliver-uninstall fails q h'.watch_over k' works in
    (
      ap (λ (l : List ℕ). record { watch_over = l; fd0 = a; fd1 = b }) same,
      rw (sym same) caught,
      rw (sym same) (ground (arith, caught, left)),
    )
