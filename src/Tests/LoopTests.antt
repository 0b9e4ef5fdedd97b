-- ===== src/Tests/LoopTests.antt =====
-- The theorems about the goroutines of internal/ra applied to runs of an advertiser on one network.
use unifi_6in.Prelude.{◌≤◌, ◌≡◌, refl, ◌⊎◌, [], ◌∷◌, pos}
use unifi_6in.Ra.{Advertiser, ConnEntry}
use unifi_6in.Ra.Loops.{
  closed, stopped, running, sending, waiting, reading, returned, all_nodes, message_to, LoopStep,
  here, there, System, Step,
}
use unifi_6in.Ra.Loops.Settling.{Steps, none_taken, then_one, Steps-settle}
use unifi_6in.Tests.Fixtures.{sample_addr}

abbrev entry : ConnEntry
entry = record {
  conn = 0;
  iface = record { name = "br0"; hardware_addr = []; mtu = pos 1500 };
  prefix = record { addr = sample_addr; bits = 64 };
}

abbrev advertiser : Advertiser
advertiser = record { conns = entry ∷ []; dns = []; tunnel_mtu = pos 1480; interval = 10 }

-- after Stop has closed the connection, while both loops run
abbrev closing : System
closing = record { phase = closed; loops = waiting entry ∷ reading entry ∷ []; sent = [] }

-- the listener returns, and the sender is before its call again
abbrev half_closed : System
half_closed = record { phase = closed; loops = sending entry ∷ returned ∷ []; sent = [] }

closing-run : Steps advertiser closing 2 half_closed
closing-run =
    then_one
      (then_one none_taken
        (Step.moves [] (there (waiting entry) (here [] (LoopStep.read_ends refl)))))
      (Step.moves [] (here (returned ∷ []) LoopStep.ticks))

Steps-settle_example :
    (2 ≤ 5)
    × (half_closed.sent ≡ [])
    × ((half_closed.phase ≡ stopped) ⊎ ((u : System) × Step advertiser half_closed u))
Steps-settle_example = Steps-settle advertiser closing half_closed 2 refl closing-run

-- after the first message, and the answer to a solicitation
abbrev answered : System
answered = record {
  phase = running;
  loops = waiting entry ∷ reading entry ∷ [];
  sent = message_to advertiser entry all_nodes ∷ message_to advertiser entry sample_addr ∷ [];
}
