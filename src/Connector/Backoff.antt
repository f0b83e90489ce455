-- ===== src/Connector/Backoff.antt =====
-- The delays between the attempts of SrcFile/Connector.c, and an attempt that is started twice.
use simple_net_base.Prelude.{
  ℕ, zero, suc, ◌+◌, ◌*◌, ◌^◌, ◌≤◌, ◌≡◌, ◌∙◌, refl, ap, true, false, List, [], ◌∷◌, none, arith,
  lookup, Result, ok, fault, assert_failed, ◌>>=◌, Returns, Returns-mono, length,
}
use native.Mathlib.Nat.{mul-le-mul_right}
use simple_net_base.Channel
use simple_net_base.Channel.{Channel, want_writing}
use simple_net_base.EventLoop
use simple_net_base.EventLoop.{EventLoop, queue_in_loop}
use simple_net_base.Functor.{Functor}
use simple_net_base.Poller.Registration.{update_channel-updated}
use simple_net_base.Connector.{
  Connector, disconnected, is_disconnected, Attempt, tries_again, goes_on, outcome, retry,
  connecting_with, connect_as, try_connect, start_in_loop, min_delay, stop, stop_in_loop,
  is_connecting,
}
use simple_net_base.Connector.Accounting.{queue_in_loop-poller}

-- Attempts one after another.
unfoldable pub attempts : List Attempt → Connector → Result Connector
attempts [] c = ok c
attempts (a ∷ rest) c = start_in_loop a c >>= attempts rest

abbrev pub AllRefused : List Attempt → Type 0
AllRefused [] = Unit {0}
AllRefused (a ∷ rest) = (outcome a.error ≡ tries_again) × AllRefused rest

abbrev Tries : Connector → Type 0
Tries c = (is_disconnected c.state ≡ true) × (c.connect ≡ true) × (c.retry_delay_ms ≤ 30000)

abbrev pub Delayed : ℕ → Connector → Connector → Type 0
Delayed n c r =
    (is_disconnected r.state ≡ true)
    × (r.retry_delay_ms ≡ min_delay (c.retry_delay_ms * 2 ^ n) 30000)
    × (length r.delays ≡ length c.delays + n)

pow_suc : (n : ℕ) → 2 ^ suc n ≡ 2 * 2 ^ n
pow_suc n = omega arith

pow_pos : (n : ℕ) → 1 ≤ 2 ^ n
pow_pos zero = omega arith
pow_pos (suc n) = omega (arith, pow_pos n, pow_suc n)

assoc : (d x : ℕ) → d * 2 * x ≡ d * (2 * x)
assoc d x = omega arith

more : (d x : ℕ) → 30000 ≤ d * 2 → 30000 * x ≤ d * 2 * x
more d x h = mul-le-mul_right x h

doubled :
    (d n : ℕ) → min_delay (min_delay (d * 2) 30000 * 2 ^ n) 30000 ≡ min_delay (d * 2 ^ suc n) 30000
doubled d n = ground (arith, pow_suc n, pow_pos n, more d (2 ^ n), assoc d (2 ^ n))

refused :
    (a : Attempt) (c : Connector)
    → is_disconnected c.state ≡ true
    → c.connect ≡ true
    → outcome a.error ≡ tries_again
    → start_in_loop a c
      ≡ ok (record c {
        opened = a.fd ∷ c.opened;
        closed = a.fd ∷ c.closed;
        state = disconnected;
        delays = c.retry_delay_ms ∷ c.delays;
        retry_delay_ms = min_delay (c.retry_delay_ms * 2) 30000;
      })
unfolding start_in_loop try_connect connect_as retry
refused a c h g e = simp (h, g, e)

-- On a disconnected connector that is to connect and whose delay is 30000 milliseconds at most: a row of
-- attempts that are all refused meets no failed assertion, leaves it disconnected, puts off as many
-- further attempts, and doubles the delay with each, up to 30000 milliseconds.
pub attempts-Delayed :
    (rest : List Attempt) (c : Connector)
    → Tries c
    → AllRefused rest
    → Returns (Delayed (length rest) c) (attempts rest c)
unfolding attempts is_disconnected
attempts-Delayed [] c (s, g, le) r = (s, ground (arith, le), omega arith)
attempts-Delayed (a ∷ rest) c (s, g, le) (e, r) =
    let d : Connector = record c {
      opened = a.fd ∷ c.opened;
      closed = a.fd ∷ c.closed;
      state = disconnected;
      delays = c.retry_delay_ms ∷ c.delays;
      retry_delay_ms = min_delay (c.retry_delay_ms * 2) 30000;
    } in
    rw (refused a c s g e) (
      Returns-mono (Delayed (length rest) d) _ (attempts rest d)
        (attempts-Delayed rest d (refl, g, ground arith) r)
        λ x (y, z, w). (y, z ∙ doubled c.retry_delay_ms (length rest), omega (arith, w)))

going :
    (b : Attempt) (c : Connector)
    → is_disconnected c.state ≡ true
    → c.connect ≡ true
    → c.channel ≡ none
    → lookup b.fd c.loop.poller.channels ≡ none
    → outcome b.error ≡ goes_on
    → Returns (λ r. is_disconnected r.state ≡ false) (start_in_loop b c)
unfolding start_in_loop try_connect connect_as connecting_with EventLoop.update_channel want_writing
    Channel.init is_disconnected
going b c h g n free e =
    let ch : Channel = record (want_writing (Channel.init b.channel_id b.fd)) {
      added_to_loop = true;
    } in
    rw (h, g, e, n, update_channel-updated ch c.loop.poller free) refl

faults :
    (m : Result Connector) (k : Connector → Result Connector)
    → Returns (λ r. k r ≡ fault assert_failed) m
    → (m >>= k) ≡ fault assert_failed
faults (ok r) k h = h
faults (fault e) k h = absurd h

not_started :
    (later : Attempt) (r : Connector)
    → is_disconnected r.state ≡ false
    → start_in_loop later r ≡ fault assert_failed
unfolding start_in_loop
not_started later r h = rw h

-- A timer of an earlier attempt is not taken back by a stop. On a disconnected connector whose last channel
-- has been reset, that is to connect: an attempt is refused, which puts off another one; the user stops
-- the connector and starts it again with an attempt that goes on; then the attempt that had been put off
-- stops at the assertion of `startInLoop`.
pub start_in_loop-refuses :
    (caller : ℕ) (a b later : Attempt) (c : Connector)
    → is_disconnected c.state ≡ true
    → c.connect ≡ true
    → c.channel ≡ none
    → lookup b.fd c.loop.poller.channels ≡ none
    → outcome a.error ≡ tries_again
    → outcome b.error ≡ goes_on
    → (start_in_loop a c >>= λ d. stop_in_loop (stop caller d) >>= λ e.
        start_in_loop b (record e { connect = true }) >>= start_in_loop later)
      ≡ fault assert_failed
unfolding stop stop_in_loop is_disconnected is_connecting
start_in_loop-refuses caller a b later c h g n free ea eb =
    let l : EventLoop Functor = queue_in_loop caller (Functor.stop_in_loop c.id) c.loop in
    let e : Connector = record c {
      loop = l;
      connect = true;
      opened = a.fd ∷ c.opened;
      closed = a.fd ∷ c.closed;
      state = disconnected;
      delays = c.retry_delay_ms ∷ c.delays;
      retry_delay_ms = min_delay (c.retry_delay_ms * 2) 30000;
    } in
    let unused : lookup b.fd l.poller.channels ≡ none =
      ap (λ p. lookup b.fd p.channels)
        (queue_in_loop-poller caller (Functor.stop_in_loop c.id) c.loop)
      ∙ free in
    rw (refused a c h g ea) (
      faults (start_in_loop b e) (start_in_loop later) (
        Returns-mono _ (λ r. start_in_loop later r ≡ fault assert_failed) (start_in_loop b e)
          (going b e refl refl n unused eb) λ r z. not_started later r z))
