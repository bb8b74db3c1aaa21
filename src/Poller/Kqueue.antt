-- ===== src/Poller/Kqueue.antt =====
-- include/poller.h, the part for macOS and FreeBSD. As for Linux, the functions return the changes that
-- they pass to `kevent`, and take the events that it gives as an argument.
pub mod Dispatch
use tiny_coro_build_your_own.Common.{
  ℕ, ◌*◌, ◌/◌, ◌%◌, Bool, true, false, Option, none, some, List, [], ◌∷◌, if◌then◌else◌, ◌==◌,
}
use tiny_coro_build_your_own.Common.Int.{ℤ, pos, negsuc, eqb_ℤ}

pub data Filter : Type 0 where
  evfilt_user evfilt_read evfilt_write : Filter

pub data Flag : Type 0 where
  ev_add ev_clear ev_enable ev_oneshot note_trigger : Flag

-- What `EV_SET` fills in. A null `udata` is 0.
pub record Kevent : Type 0 where
  pub ident : ℤ
  pub filter : Filter
  pub flags : List Flag
  pub fflags : List Flag
  pub udata : ℕ

pub record KqueuePoller : Type 0 where
  pub kq : ℤ
  pub wakeup_id : ℤ

-- `kevent` on a queue with one change, and `close`.
pub data Call : Type 0 where
  change : ℤ → Kevent → Call
  close_kq : ℤ → Call

-- The constructor, with what `kqueue` returns; it throws if that is -1.
unfoldable pub new_poller : ℤ → Option (KqueuePoller × List Call)
new_poller kq =
    if eqb_ℤ kq (negsuc 0)
    then none
    else some (
      record { kq = kq; wakeup_id = pos 42 },
      change kq (record {
        ident = pos 42;
        filter = evfilt_user;
        flags = ev_add ∷ ev_clear ∷ [];
        fflags = [];
        udata = 0;
      })
          ∷ [],
    )

unfoldable pub close_poller : KqueuePoller → List Call
close_poller p = if eqb_ℤ p.kq (negsuc 0) then [] else close_kq p.kq ∷ []

abbrev pub wake_change : KqueuePoller → Kevent
wake_change p = record {
  ident = p.wakeup_id;
  filter = evfilt_user;
  flags = [];
  fflags = note_trigger ∷ [];
  udata = 0;
}

abbrev pub io_change : Filter → ℤ → ℕ → Kevent
io_change filter fd udata = record {
  ident = fd;
  filter = filter;
  flags = ev_add ∷ ev_enable ∷ ev_oneshot ∷ [];
  fflags = [];
  udata = udata;
}

unfoldable pub wake : KqueuePoller → List Call
wake p = change p.kq (wake_change p) ∷ []

unfoldable pub add_read : KqueuePoller → ℤ → ℕ → List Call
add_read p fd udata = change p.kq (io_change evfilt_read fd udata) ∷ []

unfoldable pub add_write : KqueuePoller → ℤ → ℕ → List Call
add_write p fd udata = change p.kq (io_change evfilt_write fd udata) ∷ []

-- The seconds and nanoseconds that `wait` passes on, or no limit.
unfoldable pub timespec : ℤ → Option (ℕ × ℕ)
timespec (pos timeout_ms) = some (timeout_ms / 1000, timeout_ms % 1000 * 1000000)
timespec (negsuc n) = none

abbrev pub is_user : Filter → Bool
is_user evfilt_user = true
is_user _ = false

-- `wait`, with the events that `kevent` gives, at most 128 (none if it fails); the callback acts on a
-- state `S`.
module _ {ℓ} {S : Type ℓ} (callback : ℕ → S → S) where
  unfoldable pub wait : List Kevent → S → S
  wait [] s = s
  wait (ev ∷ evs) s =
      wait evs (if is_user ev.filter then s else (if ev.udata == 0 then s else callback ev.udata s))
