-- ===== src/Channel/Dispatch.antt =====
-- `Channel::handleEvent` of SrcFile/Channel.c against the flags that the poller returned.
use simple_net_base.Prelude.{
  ℕ, ◌+◌, ◌≡◌, ap, bit_or, Bool, not, ◌&&◌, ◌||◌, List, [], ◌∷◌, ◌++◌, if◌then◌else◌, arith,
}
use simple_net_base.Channel.{
  Channel, Handler, Registered, on_close, on_error, on_read, on_write, has, handle_event,
  handle_event_with_guard, pollin, pollpri, pollout, pollerr, pollhup, pollnval, pollrdhup,
}

-- The returned events, one flag each.
pub record Flags : Type 0 where
  pub input : Bool
  pub urgent : Bool
  pub output : Bool
  pub error : Bool
  pub hang_up : Bool
  pub invalid : Bool
  pub peer_closed : Bool

abbrev value_if : Bool → ℕ → ℕ
value_if b n = if b then n else 0

abbrev pub revents_of : Flags → ℕ
revents_of f =
    value_if f.input pollin
    + value_if f.urgent pollpri
    + value_if f.output pollout
    + value_if f.error pollerr
    + value_if f.hang_up pollhup
    + value_if f.invalid pollnval
    + value_if f.peer_closed pollrdhup

-- A handler for each condition, in the order close, error, read, write.
abbrev pub call_if : Bool → Handler → List Handler
call_if b h = if b then h ∷ [] else []

abbrev pub wanted_calls : Registered → Flags → List Handler
wanted_calls r f =
    call_if (f.hang_up && not f.input && r.close_callback) on_close
    ++ (call_if ((f.error || f.invalid) && r.error_callback) on_error
        ++ (call_if ((f.input || f.urgent || f.peer_closed) && r.read_callback) on_read
            ++ call_if (f.output && r.write_callback) on_write))

-- The bit tests of the guard read the flags.
module _ (f : Flags) where
  has-hang_up : has (revents_of f) pollhup ≡ f.hang_up
  unfolding has
  has-hang_up = ground arith

  has-input : has (revents_of f) pollin ≡ f.input
  unfolding has
  has-input = ground arith

  has-error : has (revents_of f) (bit_or pollerr pollnval) ≡ (f.error || f.invalid)
  unfolding has
  has-error = ground arith

  has-read :
      has (revents_of f) (bit_or (bit_or pollin pollpri) pollrdhup)
      ≡ (f.input || f.urgent || f.peer_closed)
  unfolding has
  has-read = ground arith

  has-output : has (revents_of f) pollout ≡ f.output
  unfolding has
  has-output = ground arith

guard-Flags :
    (r : Registered) (f : Flags) → handle_event_with_guard r (revents_of f) ≡ wanted_calls r f
unfolding handle_event_with_guard
guard-Flags r f = rw (has-hang_up f, has-input f, has-error f, has-read f, has-output f)

-- For every set of returned flags and every set of registered callbacks, handling the event calls,
-- in this order: close on a hang-up without input, error on an error or an invalid descriptor, read
-- on input, urgent data or a peer that closed its side, and write on output, each if it is
-- registered; and a tied channel whose owner is gone calls none.
pub handle_event-wanted_calls :
    (r : Registered) (c : Channel) (f : Flags) (alive : Bool)
    → c.revents ≡ revents_of f
    → handle_event r c alive ≡ (if c.tied && not alive then [] else wanted_calls r f)
unfolding handle_event
handle_event-wanted_calls r c f alive h =
    ground (arith, h, ap (handle_event_with_guard r) h, guard-Flags r f)
