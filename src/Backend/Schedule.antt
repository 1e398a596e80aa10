-- ===== src/Backend/Schedule.antt =====
-- The intervals between attempts to connect (`MfBackendBase::tryConnect`).
use touch_feedback.Base.{
  ℕ, zero, suc, ◌+◌, ◌≤◌, ◌≡◌, ◌∙◌, ap, Option, false, none, some, arith, ◌==◌, if◌then◌else◌,
}
use touch_feedback.Backend.{
  Connector, connecting, interval, try_connect, connection_done, connecting_slot,
}

-- The two intervals are read within the list, the second is not below the first, and both lie
-- between one second and two minutes.
pub record Grows (m n : Option ℕ) : Type 0 where
  pub first : ℕ
  pub second : ℕ
  pub first_read : m ≡ some first
  pub second_read : n ≡ some second
  pub grows : first ≤ second
  pub at_least : 1000 ≤ first
  pub at_most : second ≤ 120000

-- The interval after the first failure and n others.
abbrev pub wait : ℕ → ℕ
wait n =
    if n == 0
    then 1000
    else if n == 1
    then 5000
    else if n == 2
    then 10000
    else if n == 3
    then 30000
    else 120000

pub interval_lem : (n : ℕ) → interval (suc n) ≡ some (wait n)
unfolding interval
interval_lem n = ground arith

pub wait-bounds : (n : ℕ) → (1000 ≤ wait n) × (wait n ≤ 120000)
wait-bounds n = grind arith

wait_mono : (m n : ℕ) → m ≤ n → wait m ≤ wait n
wait_mono m n h = grind arith

-- The timer expires, the attempt that it starts fails, and the next interval is chosen.
abbrev pub failed_round : Connector → Connector
failed_round c = (connection_done false (connecting_slot (record c { timer = none }))).0

abbrev pub failed_rounds : ℕ → Connector → Connector
failed_rounds zero c = c
failed_rounds (suc n) c = failed_rounds n (failed_round c)

abbrev backed_off : ℕ → Connector
backed_off n = record {
  failed_connections = n;
  current_state = connecting;
  timer = interval n;
  attempt = false;
}

failed_round_lem : (c : Connector) → failed_round c ≡ backed_off (suc c.failed_connections)
unfolding connection_done connecting_slot interval
failed_round_lem c = ground arith

-- After one or more rounds that all fail the backend is connecting, it has counted each of them,
-- no attempt is under way, and the timer runs for the interval of the whole count.
failed_rounds_lem :
    (n : ℕ) (c : Connector)
    → failed_rounds (suc n) c ≡ record {
      failed_connections = c.failed_connections + suc n;
      current_state = connecting;
      timer = interval (c.failed_connections + suc n);
      attempt = false;
    }
failed_rounds_lem zero c = failed_round_lem c ∙ ap backed_off (omega arith)
failed_rounds_lem (suc n) c =
    failed_rounds_lem n (failed_round c)
    ∙ ap backed_off
        (omega (arith, ap (λ (d : Connector). d.failed_connections) (failed_round_lem c)))

-- The timer expires and each attempt fails, again and again: after one or more such rounds no
-- attempt is under way and the timer runs, for an interval that is read within the list, lies
-- between one second and two minutes and never shrinks as the rounds go on. By the number of
-- failures in a row it is 1, 5, 10 and 30 seconds, and then always two minutes.
pub failed_rounds-Grows :
    (m n : ℕ) (c : Connector)
    → m ≤ n
    → Grows (failed_rounds (suc m) c).timer (failed_rounds (suc n) c).timer
      × ((failed_rounds (suc n) c).timer ≡ some (wait (c.failed_connections + n)))
      × ((failed_rounds (suc n) c).attempt ≡ false)
failed_rounds-Grows m n c h =
    let counted = c.failed_connections in
    (
      record {
        first = wait (counted + m);
        second = wait (counted + n);
        first_read = timer_lem m c;
        second_read = timer_lem n c;
        grows = wait_mono (counted + m) (counted + n) (omega arith);
        at_least = (wait-bounds (counted + m)).0;
        at_most = (wait-bounds (counted + n)).1;
      },
      timer_lem n c,
      ap (λ (d : Connector). d.attempt) (failed_rounds_lem n c),
    )
  where
    timer_lem :
        (k : ℕ) (c : Connector)
        → (failed_rounds (suc k) c).timer ≡ some (wait (c.failed_connections + k))
    timer_lem k c =
        ap (λ (d : Connector). d.timer) (failed_rounds_lem k c)
        ∙ ap interval (omega arith)
        ∙ interval_lem (c.failed_connections + k)

-- No timer is ever started with the first entry of the list, 500 ms: if the timer runs for 500 ms
-- after `tryConnect`, it did so before.
try_connect-first_interval : (c : Connector) → (try_connect c).timer ≡ some 500 → c.timer ≡ some 500
unfolding try_connect
try_connect-first_interval c h = ground arith
