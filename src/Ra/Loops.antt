-- ===== src/Ra/Loops.antt =====
-- The goroutines of internal/ra/advertiser.go: `sendLoop`, `listenLoop` and `Stop`, as steps. A
-- loop stands before a call or has returned; the context and the connections, which all loops
-- share, are as far as `Stop` has got. Calls on a closed connection fail, as package ndp has it;
-- any other call may fail too.
pub mod Settling
pub mod Advertised
pub mod Returning
use unifi_6in.Prelude.{
  ◌≡◌, String, Bool, true, false, Option, none, some, List, [], ◌∷◌, ◌++◌, not, ◌||◌, ◌&&◌, nat_eq,
  if◌then◌else◌, ◌==◌,
}
use unifi_6in.Net.{Addr, Family, invalid, v4, v6}
use unifi_6in.Ra.{Advertiser, ConnEntry, RouterAdvertisement, build_ra}

-- netip.MustParseAddr("ff02::1")
abbrev pub all_nodes : Addr
all_nodes = record { family = v6; number = 0xff020000_00000000_00000000_00000001; zone = "" }

-- Addr.IsValid, Addr.IsUnspecified
abbrev pub is_valid : Addr → Bool
is_valid a = elim a.family [ invalid ↦ false | v4 ↦ true | v6 ↦ true ]

abbrev pub is_unspecified : Addr → Bool
is_unspecified a = is_valid a && nat_eq a.number 0 && a.zone == ""

-- the `destination` of listenLoop
abbrev pub destination_of : Addr → Addr
destination_of source = if not (is_valid source) || is_unspecified source then all_nodes else source

-- How far Stop has got: to its a.cancel(), past it, past closeConns, and past a.wg.Wait().
pub data Phase : Type 0 where
  running cancelled closed stopped : Phase

-- ctx.Done() is ready
abbrev pub is_done : Phase → Bool
is_done running = false
is_done cancelled = true
is_done closed = true
is_done stopped = true

-- the connections are closed
abbrev pub is_closed : Phase → Bool
is_closed running = false
is_closed cancelled = false
is_closed closed = true
is_closed stopped = true

pub data Loop : Type 0 where
  -- sendLoop before its WriteTo, and before its second select
  sending : ConnEntry → Loop
  waiting : ConnEntry → Loop
  -- listenLoop before its ReadFrom, and before its WriteTo to a destination
  reading : ConnEntry → Loop
  answering : ConnEntry → Addr → Loop
  returned : Loop

-- what a WriteTo has sent
pub record Sent : Type 0 where
  pub entry : ConnEntry
  pub ra : RouterAdvertisement
  pub destination : Addr

-- the message of a loop
abbrev pub message_to : Advertiser → ConnEntry → Addr → Sent
message_to a e destination = record {
  entry = e;
  ra = build_ra (some e.iface) e.prefix a.dns a.tunnel_mtu;
  destination = destination;
}

-- A step of one loop, and the message that it sends.
pub data LoopStep (a : Advertiser) (p : Phase) : Loop → List Sent → Loop → Type 0 where
  sends :
      {e : ConnEntry}
      → is_closed p ≡ false
      → LoopStep a p (sending e) (message_to a e all_nodes ∷ []) (waiting e)
  send_fails : {e : ConnEntry} → is_done p ≡ false → LoopStep a p (sending e) [] (waiting e)
  send_ends : {e : ConnEntry} → is_done p ≡ true → LoopStep a p (sending e) [] returned
  ticks : {e : ConnEntry} → LoopStep a p (waiting e) [] (sending e)
  wait_ends : {e : ConnEntry} → is_done p ≡ true → LoopStep a p (waiting e) [] returned
  read_fails : {e : ConnEntry} → is_done p ≡ false → LoopStep a p (reading e) [] (reading e)
  read_ends : {e : ConnEntry} → is_done p ≡ true → LoopStep a p (reading e) [] returned
  -- a message that is no solicitation, and one that is
  ignores : {e : ConnEntry} → is_closed p ≡ false → LoopStep a p (reading e) [] (reading e)
  hears :
      {e : ConnEntry} (source : Addr)
      → is_closed p ≡ false
      → LoopStep a p (reading e) [] (answering e (destination_of source))
  answers :
      {e : ConnEntry} {d : Addr}
      → is_closed p ≡ false
      → LoopStep a p (answering e d) (message_to a e d ∷ []) (reading e)
  answer_fails :
      {e : ConnEntry} {d : Addr} → is_done p ≡ false → LoopStep a p (answering e d) [] (reading e)
  answer_ends :
      {e : ConnEntry} {d : Addr} → is_done p ≡ true → LoopStep a p (answering e d) [] returned

-- A step of one of the loops.
pub data LoopsStep (a : Advertiser) (p : Phase) : List Loop → List Sent → List Loop → Type 0 where
  here :
      {l l' : Loop} {out : List Sent} (ls : List Loop)
      → LoopStep a p l out l'
      → LoopsStep a p (l ∷ ls) out (l' ∷ ls)
  there :
      {ls ls' : List Loop} {out : List Sent} (l : Loop)
      → LoopsStep a p ls out ls'
      → LoopsStep a p (l ∷ ls) out (l ∷ ls')

pub record System : Type 0 where
  pub phase : Phase
  pub loops : List Loop
  pub sent : List Sent

-- a.wg.Wait() does not block
abbrev pub AllReturned : List Loop → Type 0
AllReturned [] = Unit
AllReturned (l ∷ ls) = (l ≡ returned) × AllReturned ls

-- A step of a loop or of Stop.
pub data Step (a : Advertiser) : System → System → Type 0 where
  moves :
      {p : Phase} {ls ls' : List Loop} {out : List Sent} (sent : List Sent)
      → LoopsStep a p ls out ls'
      → Step a
          (record { phase = p; loops = ls; sent = sent })
          (record { phase = p; loops = ls'; sent = sent ++ out })
  cancels :
      {ls : List Loop} {sent : List Sent}
      → Step a
          (record { phase = running; loops = ls; sent = sent })
          (record { phase = cancelled; loops = ls; sent = sent })
  closes :
      {ls : List Loop} {sent : List Sent}
      → Step a
          (record { phase = cancelled; loops = ls; sent = sent })
          (record { phase = closed; loops = ls; sent = sent })
  waits :
      {ls : List Loop} {sent : List Sent}
      → AllReturned ls
      → Step a
          (record { phase = closed; loops = ls; sent = sent })
          (record { phase = stopped; loops = ls; sent = sent })

-- the goroutines that NewAdvertiser starts
unfoldable pub start_loops : List ConnEntry → List Loop
start_loops [] = []
start_loops (e ∷ es) = sending e ∷ reading e ∷ start_loops es

abbrev pub started : Advertiser → System
started a = record { phase = running; loops = start_loops a.conns; sent = [] }
