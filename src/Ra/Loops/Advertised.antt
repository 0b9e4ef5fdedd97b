-- ===== src/Ra/Loops/Advertised.antt =====
-- What the goroutines of internal/ra/advertiser.go send, from the start of an advertiser on.
use unifi_6in.Prelude.{◌≡◌, ◌⊎◌, true, false, List, [], ◌∷◌, some}
use unifi_6in.Net.{Addr}
use unifi_6in.Ra.{ConnEntry, Advertiser, build_ra}
use unifi_6in.Ra.Loops.{
  is_valid, is_unspecified, Loop, sending, waiting, reading, answering, returned, Sent, System,
  Step, started,
}

-- runs of an advertiser, from its start
pub data Reach (a : Advertiser) : System → Type 0 where
  start : Reach a (started a)
  later : {s t : System} → Reach a s → Step a s t → Reach a t

-- membership in a list
abbrev pub IsAmong : ConnEntry → List ConnEntry → Type 0
IsAmong e [] = ⊥
IsAmong e (x ∷ xs) = (e ≡ x) ⊎ IsAmong e xs

-- an address that a message can be sent to
abbrev pub IsDestination : Addr → Type 0
IsDestination d = (is_valid d ≡ true) × (is_unspecified d ≡ false)

module _ (a : Advertiser) where
  -- A message of the advertiser: on one of its connections, the advertisement of the prefix of that
  -- connection, to an address that can be sent to.
  abbrev pub IsAdvertised : Sent → Type 0
  IsAdvertised m =
      IsAmong m.entry a.conns
      × (m.ra ≡ build_ra (some m.entry.iface) m.entry.prefix a.dns a.tunnel_mtu)
      × IsDestination m.destination

  abbrev IsWell : Loop → Type 0
  IsWell (sending e) = IsAmong e a.conns
  IsWell (waiting e) = IsAmong e a.conns
  IsWell (reading e) = IsAmong e a.conns
  IsWell (answering e d) = IsAmong e a.conns × IsDestination d
  IsWell returned = Unit
