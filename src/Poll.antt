-- ===== src/Poll.antt =====
-- util-src/poll.c: the set of watched file descriptors behind `util.poll`, for each of its three
-- backends, and what they have in common.
pub mod Array
pub mod Epoll
pub mod Select
use prosody.Base.{ℕ, Bool, true, false, ◌||◌, List}
use prosody.Base.Int.{ℤ}

-- The error numbers that the C code names, and one that a system call gives.
pub data Errno : Type 0 where
  ebadf eexist emfile enoent eintr : Errno
  other : ℕ → Errno

-- What a method returns: true, an event (a descriptor, whether it can be read, and whether it can
-- be written), nil with a message, nil with an error number, or no value at all.
pub data Reply : Type 0 where
  done : Reply
  event : ℤ → Bool → Bool → Reply
  timed_out interrupted : Reply
  failed : Errno → Reply
  nothing : Reply

-- The bits of the mask of a `struct pollfd` or `struct epoll_event` that the code names.
pub record Events : Type 0 where
  pub pollin : Bool
  pub pollout : Bool
  pub pollerr : Bool
  pub pollhup : Bool
  pub pollrdhup : Bool
  pub pollnval : Bool

abbrev pub no_events : Events
no_events = record {
  pollin = false;
  pollout = false;
  pollerr = false;
  pollhup = false;
  pollrdhup = false;
  pollnval = false;
}

-- `mask != 0`
abbrev pub is_set : Events → Bool
is_set e = e.pollin || e.pollout || e.pollerr || e.pollhup || e.pollrdhup || e.pollnval

-- The timeout is a Lua number: below 0 or not a number, 0, or above 0.
pub data Timeout : Type 0 where
  negative zero_time positive : Timeout
