-- ===== src/Tests/Drivers.antt =====
-- The theorems on the tunnel mount and on the location worker at concrete events.
use maps_main.Shared.{ℕ, refl, runes, true, false, none, some, [], ◌∷◌}
use maps_main.Domain.{TunnelInfo, conn_usb, conn_wifi}
use maps_main.Drivers.Mount.{
  TunnelMount, Host, no_mount, reap, stop, Turn, deadline, ticked, StartConfig, start,
  NetworkDevice, set,
}
use maps_main.Drivers.Mount.State.{IsSound, started, stopped, exited, fresh, next, Reach-IsSound}
use maps_main.Drivers.Mount.Daemon.{Settled, start_settles}
use maps_main.Drivers.Session.{
  WorkerResponse, Session, response, garbage, read_line, begin, await, holds, new_session,
}
use maps_main.Drivers.Session.Matched.{
  IsMatched, asked, read, awaited, start as opened, next as and_then, Reach-IsMatched,
}

abbrev usb : TunnelInfo
usb = record { address = "fd00::1"; port = 49152; type = conn_usb; userspace_port = 0 }

abbrev auto : StartConfig
auto = record { manual = none; before_start = true; daemon_starts = true }

-- A turn without an endpoint, one with, and one with in which the daemon exits before `set`.
abbrev idle_turn : Turn
idle_turn = record { exits_before = false; resolved = none; exits_between = false; wake = ticked }

abbrev good_turn : Turn
good_turn = record idle_turn { resolved = some (usb, runes "udid") }

abbrev bad_turn : Turn
bad_turn = record good_turn { exits_between = true }

abbrev late_turn : Turn
late_turn = record idle_turn { wake = deadline true }

abbrev quiet : Host
quiet = record { mount = no_mount; next_pid = 7; dead = (λ p. false); killed = (λ p. false) }

-- Up, the daemon exits, down, up again, and the old daemon's exit is told once more.
Reach-IsSound_example : IsSound (
    reap 7
      (start auto
        (idle_turn ∷ good_turn ∷ [])
        (stop true (reap 7 (start auto (good_turn ∷ []) quiet).1))).1)
Reach-IsSound_example = Reach-IsSound (
    next
      (next (next (next (next fresh (started auto (good_turn ∷ []))) (exited 7)) (stopped true))
        (started auto (idle_turn ∷ good_turn ∷ [])))
      (exited 7))

start_settles_example : Settled 7 no_mount (start auto (idle_turn ∷ late_turn ∷ []) quiet)
start_settles_example = start_settles auto (idle_turn ∷ late_turn ∷ []) quiet refl refl refl refl

abbrev over_wifi : NetworkDevice
over_wifi = record {
  udid = runes "udid";
  address = "fd00::2";
  port = 50000;
  type = conn_wifi;
  userspace_port = 0;
}

abbrev mounted : TunnelMount
mounted = set usb (some 7) (runes "udid") no_mount

abbrev reply : ℕ → WorkerResponse
reply i = record { id = i; ok = true; error = "" }

-- Two requests, the first given up; its reply comes late, twice, then garbage ends the stream.
Reach-IsMatched_example : IsMatched (
    read_line garbage (
      read_line
        (response (reply 1))
        (read_line (response (reply 1)) (begin true (await true 1 1 (begin true new_session)).1))))
Reach-IsMatched_example = Reach-IsMatched (
    and_then
      (and_then
        (and_then
          (and_then (and_then (and_then opened (asked true)) (awaited true 1 1)) (asked true))
          (read (response (reply 1))))
        (read (response (reply 1))))
      (read garbage))

-- A session that has numbered one request and waits for nothing.
abbrev calm : Session
calm = record {
  next_id = 1;
  pending = [];
  next_chan = 2;
  channels = λ c. record { owner = 0; content = holds (reply 0) };
  reading = true;
  stuck = false;
}

abbrev deaf : Session
deaf = record calm { reading = false }
