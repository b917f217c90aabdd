-- ===== src/Tests/Manage.antt =====
-- The theorem on the management of paired devices, with a phone on the network that tries to list and
-- to revoke them while the machine's own window does its work.
use maps_main.Shared.{refl, Text, runes, Bool, true, false, some, [], ◌∷◌, ◌==◌, inl, inr}
use maps_main.Server.Manage.Calls.{GoNet, Request, Call}
use maps_main.Server.Manage.Local.{IsRemote}
use maps_main.Tests.Auth.{seed}

-- Addresses that start with a 1 name this machine.
abbrev starts_with_1 : Text → Bool
starts_with_1 [] = false
starts_with_1 (c ∷ cs) = c == b'1'

abbrev net : GoNet
net = record {
  Ip = Text;
  split_host_port = λ addr. some addr;
  parse_ip = λ host. some host;
  is_loopback_ip = starts_with_1;
}

abbrev here : Text
here = runes "127.0.0.1"

abbrev there : Text
there = runes "203.0.113.9"

abbrev made : Text → Request → Call
made addr q = record {
  remote_addr = addr;
  request = q;
  at = 1000;
  db = true;
  list_db = true;
  seed = seed;
}

abbrev there-IsRemote : IsRemote net there
there-IsRemote = (there, inl refl, inr (there, refl, refl))
