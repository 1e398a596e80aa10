-- ===== src/Daemon/Sockets.antt =====
-- src/daemon/mfsignalhandler.cpp: the way of a caught signal through the handler's pair of sockets.
-- The handler of the system's signal writes; the slot `retranslate` reads, in the main thread, when
-- the notifier tells that there is something to read.
use touch_feedback.Base.{
  ℕ, zero, suc, ◌≡◌, ◌≢◌, refl, ap, ◌∙◌, sym, Bool, true, false, ◌&&◌, List, [], ◌∷◌, ◌++◌, arith,
  ◌==◌, if◌then◌else◌, contains, length, length-append, some, append_assoc, append-nil, Bool-cases,
  inl, inr,
}
use touch_feedback.Daemon.Signals.{
  SignalHandler, Signals, Delivery, by_default, dropped, written_to, deliver, init_handler,
}
use touch_feedback.Daemon.Catching.{watched, init_handler-uninstall}

-- What has been written to a descriptor and not been read at the other end of its pair.
abbrev pub Sockets : Type 0
Sockets = ℕ → List ℕ

-- The write of `onSignal`, which a signal that is delivered to it gets to if it finds a descriptor;
-- `write_ok` tells if the write is whole. A bad write is reported, and the signal is lost.
abbrev write_to : Delivery → ℕ → Bool → Sockets → Sockets
write_to by_default s write_ok sockets c = sockets c
write_to dropped s write_ok sockets c = sockets c
write_to (written_to fd) s write_ok sockets c =
    if write_ok && fd == c then sockets c ++ s ∷ [] else sockets c

-- A signal comes.
unfoldable pub write_signal : ℕ → Bool → Signals → Sockets → Sockets
unfolding deliver
write_signal s write_ok k sockets = write_to (deliver s k) s write_ok sockets

-- `retranslate`: the signal that is emitted. With nothing to read the read is bad, which is
-- reported, and what is emitted is what stood in the variable before.
unfoldable pub retranslate : SignalHandler → ℕ → Sockets → ℕ × Sockets
retranslate h unread sockets = elim (sockets h.fd0) [
  | [] ↦ (unread, sockets)
  | s ∷ rest ↦ (s, λ c. if h.fd0 == c then rest else sockets c)
]

-- A signal comes, and its write works or not; the notifier is activated, with what stands in the
-- variable that is read into.
pub data Event : Type 0 where
  caught : ℕ → Bool → Event
  activated : ℕ → Event

-- The sockets, and what a handler has emitted, oldest first.
pub record Relay : Type 0 where
  pub sockets : Sockets
  pub emitted : List ℕ

abbrev activate : SignalHandler → ℕ → Relay → Relay
activate h unread r =
    let (s, sockets) = retranslate h unread r.sockets in
    record { sockets = sockets; emitted = r.emitted ++ s ∷ [] }

unfoldable pub relay : Signals → SignalHandler → List Event → Relay → Relay
unfolding write_signal retranslate
relay k h [] r = r
relay k h (caught s ok ∷ events) r =
    relay k h events (record r { sockets = write_signal s ok k r.sockets })
relay k h (activated unread ∷ events) r = relay k h events (activate h unread r)

-- The signals of a list that come and whose write works, in their order.
abbrev pub caught_of : List ℕ → List Event → List ℕ
caught_of signals [] = []
caught_of signals (caught s ok ∷ events) =
    let rest = caught_of signals events in if contains s signals && ok then s ∷ rest else rest
caught_of signals (activated unread ∷ events) = caught_of signals events

-- With n signals to read at first, is the notifier activated only when there is one to read?
abbrev pub readable : List ℕ → ℕ → List Event → Bool
readable signals n [] = true
readable signals n (caught s ok ∷ events) =
    let more = readable signals (suc n) events in
    let same = readable signals n events in if contains s signals && ok then more else same
readable signals zero (activated unread ∷ events) = false
readable signals (suc n) (activated unread ∷ events) = readable signals n events

-- What is emitted and what is still to be read, together.
abbrev pub passed : SignalHandler → Relay → List ℕ
passed h r = r.emitted ++ r.sockets h.fd0

module _ (k : Signals) (h : SignalHandler) (signals : List ℕ) where
  -- A signal is written to the handler's first socket exactly if it is in `signals`.
  Routed : Type 0
  Routed =
      (q : ℕ)
      → (contains q signals ≡ true → deliver q k ≡ written_to h.fd0)
        × (contains q signals ≡ false → deliver q k ≢ written_to h.fd0)

  -- What a signal adds to what the handler is to read.
  write_signal_lem :
      (s : ℕ) (ok : Bool) (sockets : Sockets)
      → Routed
      → write_signal s ok k sockets h.fd0 ≡ sockets h.fd0 ++ caught_of signals (caught s ok ∷ [])
  unfolding write_signal Routed
  write_signal_lem s ok sockets v = elim (Bool-cases (contains s signals)) [
    | inl in_list ↦
        ap (λ (d : Delivery). write_to d s ok sockets h.fd0) ((v s).0 in_list)
        ∙ rw in_list (written ok)
    | inr other ↦ rw other (elsewhere (deliver s k) ((v s).1 other))
  ]
    where
      same : (h.fd0 == h.fd0) ≡ true
      same = ground arith

      written :
          (ok : Bool)
          → write_to (written_to h.fd0) s ok sockets h.fd0
            ≡ sockets h.fd0 ++ (if ok then s ∷ [] else [])
      written true = rw same refl
      written false = sym (append-nil (sockets h.fd0))

      elsewhere :
          (d : Delivery)
          → d ≢ written_to h.fd0
          → write_to d s ok sockets h.fd0 ≡ sockets h.fd0 ++ []
      elsewhere by_default e = sym (append-nil (sockets h.fd0))
      elsewhere dropped e = sym (append-nil (sockets h.fd0))
      elsewhere (written_to fd) e = elim (Bool-cases (ok && fd == h.fd0)) [
        | inl hit ↦ absurd (e (ap written_to (ground (arith, hit))))
        | inr miss ↦ rw miss (sym (append-nil (sockets h.fd0)))
      ]

  -- One activation with something to read emits the first signal that is to be read.
  activate-passed :
      (unread n : ℕ) (r : Relay)
      → length (r.sockets h.fd0) ≡ suc n
      → (passed h (activate h unread r) ≡ passed h r)
        × (length ((activate h unread r).sockets h.fd0) ≡ n)
  unfolding retranslate
  activate-passed unread n r e = from (r.sockets h.fd0) refl
    where
      from :
          (l : List ℕ)
          → r.sockets h.fd0 ≡ l
          → (passed h (activate h unread r) ≡ passed h r)
            × (length ((activate h unread r).sockets h.fd0) ≡ n)
      from [] f = absurd (omega (arith, e, ap (λ (l : List ℕ). length l) f))
      from (s ∷ rest) f =
          let same : (h.fd0 == h.fd0) ≡ true = ground arith in
          (
            rw (f, retranslate, same) (append_assoc r.emitted (s ∷ []) rest),
            rw (f, retranslate, same) (omega (arith, e, ap (λ (l : List ℕ). length l) f)),
          )

  relay-passed :
      (events : List Event) (n : ℕ) (r : Relay)
      → Routed
      → length (r.sockets h.fd0) ≡ n
      → readable signals n events ≡ true
      → passed h (relay k h events r) ≡ passed h r ++ caught_of signals events
  unfolding relay
  relay-passed [] n r v e f = sym (append-nil (passed h r))
  relay-passed (activated unread ∷ events) zero r v e f = cc
  relay-passed (activated unread ∷ events) (suc n) r v e f =
      let once = activate-passed unread n r e in
      relay-passed events n (activate h unread r) v once.1 f
      ∙ ap (λ (l : List ℕ). l ++ caught_of signals events) once.0
  relay-passed (caught s ok ∷ events) n r v e f =
      let r' : Relay = record r { sockets = write_signal s ok k r.sockets } in
      let adds = write_signal_lem s ok r.sockets v in
      elim (Bool-cases (contains s signals && ok)) [
        | inl goes ↦
            let more : r'.sockets h.fd0 ≡ r.sockets h.fd0 ++ s ∷ [] = adds ∙ rw goes refl in
            let counted : length (r'.sockets h.fd0) ≡ suc n =
              ap (λ (l : List ℕ). length l) more
              ∙ omega (arith, length-append (r.sockets h.fd0) (s ∷ []), e) in
            relay-passed events (suc n) r' v counted (sym (rw goes refl) ∙ f)
            ∙ rw (more, goes) (simp append_assoc)
        | inr lost ↦
            let more : r'.sockets h.fd0 ≡ r.sockets h.fd0 =
              adds ∙ rw lost (append-nil (r.sockets h.fd0)) in
            relay-passed events n r' v (ap (λ (l : List ℕ). length l) more ∙ e)
              (sym (rw lost refl) ∙ f)
            ∙ rw (more, lost) refl
      ]

-- Once `init` of a handler has succeeded with a new pair of sockets, that is one to which no other
-- signal is written and from which nothing is left to read: whatever signals come, whichever of
-- their writes fail, and whenever the notifier is activated with something to read, what the handler
-- has emitted, followed by what it is still to read, are those signals whose write worked that it
-- watched before or that `init` was called with, each once and in the order in which they came.
pub relay-caught_of :
    (fails : ℕ → Bool) (a b s : ℕ) (g : SignalHandler) (k : Signals) (events : List Event)
    (sockets : Sockets)
    → (init_handler fails (some (a, b)) s g k).0 ≡ true
    → ((q : ℕ) → deliver q k ≢ written_to a)
    → sockets a ≡ []
    → readable (watched s g) 0 events ≡ true
    → passed (init_handler fails (some (a, b)) s g k).1 (
        relay
          (init_handler fails (some (a, b)) s g k).2
          (init_handler fails (some (a, b)) s g k).1
          events
          (record { sockets = sockets; emitted = [] }))
      ≡ caught_of (watched s g) events
unfolding init_handler Routed
relay-caught_of fails a b s g k events sockets done new empty covered =
    let (_, h, k') = init_handler fails (some (a, b)) s g k in
    relay-passed k' h (watched s g) events 0 (record { sockets = sockets; emitted = [] })
      (λ q.
        let goes = (init_handler-uninstall fails a b s q g k done).1 in
        (λ in_list. goes ∙ rw in_list refl, λ other here. new q (rw other at (sym goes ∙ here))))
      (rw empty refl) covered
    ∙ rw empty refl
