-- ===== src/Channel.antt =====
-- SrcFile/Channel.h and SrcFile/Channel.c: a descriptor, the events that its owner wants, and the
-- callbacks that a batch of returned events leads to.
use simple_net_base.Prelude.{
  ℕ, ◌-◌, ◌^◌, bit_and, bit_or, Bool, true, false, not, ◌&&◌, ◌||◌, List, [], ◌∷◌, ◌++◌, ◌==◌,
  if◌then◌else◌,
}
pub mod Masks
pub mod Dispatch
pub mod Printing

-- <poll.h> on Linux; <sys/epoll.h> has the same values.
abbrev pub pollin : ℕ
pollin = 1

abbrev pub pollpri : ℕ
pollpri = 2

abbrev pub pollout : ℕ
pollout = 4

abbrev pub pollerr : ℕ
pollerr = 8

abbrev pub pollhup : ℕ
pollhup = 16

abbrev pub pollnval : ℕ
pollnval = 32

abbrev pub pollrdhup : ℕ
pollrdhup = 8192

abbrev pub none_event : ℕ
none_event = 0

abbrev pub read_event : ℕ
read_event = bit_or pollin pollpri

abbrev pub write_event : ℕ
write_event = pollout

-- `kNew`, `kAdded` and `kDeleted` of SrcFile/EPollPoller.c: what `index_` holds.
pub data Index : Type 0 where
  new added deleted : Index

pub record Channel : Type 0 where
  pub id : ℕ  -- the address of the object
  pub fd : ℕ
  pub events : ℕ
  pub revents : ℕ
  pub index : Index
  pub tied : Bool
  pub event_handling : Bool
  pub added_to_loop : Bool

unfoldable pub init : ℕ → ℕ → Channel
init id fd = record {
  id = id;
  fd = fd;
  events = 0;
  revents = 0;
  index = new;
  tied = false;
  event_handling = false;
  added_to_loop = false;
}

-- `x & mask` as a condition.
unfoldable pub has : ℕ → ℕ → Bool
has x mask = not (bit_and x mask == 0)

-- `x & ~mask` on a 32-bit int.
unfoldable pub clear : ℕ → ℕ → ℕ
clear x mask = bit_and x (2 ^ 32 - 1 - mask)

unfoldable pub is_none_event : Channel → Bool
is_none_event c = c.events == none_event

unfoldable pub is_writing : Channel → Bool
unfolding has
is_writing c = has c.events write_event

unfoldable pub is_reading : Channel → Bool
unfolding has
is_reading c = has c.events read_event

-- The assignments to `events_`, before the call of `update()` that follows each.
unfoldable pub want_reading : Channel → Channel
want_reading c = record c { events = bit_or c.events read_event }

unfoldable pub unwant_reading : Channel → Channel
unfolding clear
unwant_reading c = record c { events = clear c.events read_event }

unfoldable pub want_writing : Channel → Channel
want_writing c = record c { events = bit_or c.events write_event }

unfoldable pub unwant_writing : Channel → Channel
unfolding clear
unwant_writing c = record c { events = clear c.events write_event }

unfoldable pub want_nothing : Channel → Channel
want_nothing c = record c { events = none_event }

unfoldable pub set_revents : Channel → ℕ → Channel
set_revents c revents = record c { revents = revents }

unfoldable pub set_index : Channel → Index → Channel
set_index c index = record c { index = index }

unfoldable pub tie : Channel → Channel
tie c = record c { tied = true }

pub data Handler : Type 0 where
  on_close on_error on_read on_write : Handler

-- Which of the callbacks have been set.
pub record Registered : Type 0 where
  pub close_callback : Bool
  pub error_callback : Bool
  pub read_callback : Bool
  pub write_callback : Bool

abbrev one_if : Bool → Handler → List Handler
one_if b h = if b then h ∷ [] else []

-- `handleEventWithGuard`: the callbacks that it calls, in order.
unfoldable pub handle_event_with_guard : Registered → ℕ → List Handler
unfolding has
handle_event_with_guard r revents =
    one_if (has revents pollhup && not (has revents pollin) && r.close_callback) on_close
    ++ (one_if (has revents (bit_or pollerr pollnval) && r.error_callback) on_error
        ++ (one_if (has revents (bit_or (bit_or pollin pollpri) pollrdhup) && r.read_callback)
              on_read
            ++ one_if (has revents pollout && r.write_callback) on_write))

-- `handleEvent`: a tied channel calls nothing once its owner is gone.
unfoldable pub handle_event : Registered → Channel → Bool → List Handler
unfolding handle_event_with_guard
handle_event r c owner_alive =
    if c.tied
    then (if owner_alive then handle_event_with_guard r c.revents else [])
    else handle_event_with_guard r c.revents
