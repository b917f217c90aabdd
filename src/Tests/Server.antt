-- ===== src/Tests/Server.antt =====
-- The theorems on hub.go and pair_throttle.go at concrete traffic.
use maps_main.Shared.{ℕ, ◌*◌, refl, String, List, [], ◌∷◌}
use maps_main.Server.Hub.{Message, Client, Hub, new_hub, register, unregister, broadcast}
use maps_main.Server.Hub.Invariant.{Inv, registered, unregistered, sent, start, next, Reach-Inv}
use maps_main.Server.RateLimiter.{RateLimiter, token}

-- A client with room for one message, and a message.
abbrev client : ℕ → Client
client i = record { id = i; queue = []; room = 1 }

abbrev hello : Message
hello = record { text = 1; size = 5 }

-- Two clients and two broadcasts: the queues are full at the second.
abbrev two_clients : Hub
two_clients = register (client 2) (register (client 1) new_hub)

Reach-Inv_example : Inv (unregister 1 (broadcast hello (broadcast hello two_clients)))
unfolding new_hub register
Reach-Inv_example = Reach-Inv (
    next
      (next
        (next
          (next (next start (registered (client 1) refl refl)) (registered (client 2) refl refl))
          (sent hello))
        (sent hello))
      (unregistered 1))

-- Seven attempts of one address and one of another, a second apart.
abbrev attempts : List (ℕ × String)
attempts =
    (0, "a")
    ∷ (1000000000, "a")
    ∷ (2000000000, "b")
    ∷ (3000000000, "a")
    ∷ (4000000000, "a")
    ∷ (5000000000, "a")
    ∷ (6000000000, "a")
    ∷ (7000000000, "a")
    ∷ []

-- A connection of 20 messages a second and a burst of 2.
abbrev limiter : RateLimiter
limiter = record { tokens = 2 * token; last_update = 0; limit = 20; burst = 2 }

abbrev arrivals : List ℕ
arrivals = 1000 ∷ 2000 ∷ 3000 ∷ 60000000 ∷ []
