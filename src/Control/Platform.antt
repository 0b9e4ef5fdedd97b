-- ===== src/Control/Platform.antt =====
-- What the control service of internal/control drives and is given: a backend (the interface
-- Backend of backend.go), and the clock, its two files, the JSON codec and the net packages.
-- `SaveState` and `LoadState` of state.go over them. Each call takes the world `W` and returns the
-- world after it.
use unifi_6in.Prelude.{ℕ, String, Bool, Option, none, some, if◌then◌else◌}
use unifi_6in.Errors.{Error, wrapped, is_not_exist, Result, ok, err, wrap}
use unifi_6in.Net.{NetIp}
use unifi_6in.Ra.{RaPlatform}
use unifi_6in.Config.Types.{Config}
use unifi_6in.Config.Raw.{Json, Files}
use unifi_6in.Control.State.{AppliedState, StateDocument, default_state}
use unifi_6in.Control.Reasons.{Observation}

pub record ReconcileInput : Type 0 where
  pub config : Config
  pub config_valid : Bool
  pub force : Bool
  pub applied : AppliedState

-- The config is nil where the tunnel is not to be observed.
pub record ObserveInput : Type 0 where
  pub wan_interface : String
  pub config : Option Config

pub record ProbeResult : Type 0 where
  pub ping_ok : Bool
  pub ping_ms : ℕ

pub record Backend (W : Type 0) : Type 0 where
  -- Reconcile writes through `input.Config`, which its caller reads again: the config comes back.
  pub reconcile : ReconcileInput → W → (Option Error × Config) × W
  pub observe : ObserveInput → W → (Option Observation × Option Error) × W
  pub probe : String → W → Result ProbeResult × W
  pub repair_addresses : Config → W → Option Error × W

pub record Platform (D W : Type 0) : Type 0 where
  pub net : NetIp
  pub json : Json D
  pub backend : Backend W
  pub ra : RaPlatform W
  -- time.Now().UTC()
  pub now : W → ℕ × W
  pub config_file : Files D W
  pub state_file : Files D W
  -- json.MarshalIndent of a state, and json.Unmarshal into a state that holds values
  pub encode_state : StateDocument → Result D
  pub decode_state : StateDocument → D → Result StateDocument

module _ {D W : Type 0} (platform : Platform D W) where
  -- func SaveState of internal/control/state.go
  unfoldable pub save_state : StateDocument → W → Option Error × W
  save_state state w = elim (platform.encode_state state) [
    | err e ↦ (some (wrapped "marshal state: " e ""), w)
    | ok text ↦
        let (failure, w') = platform.state_file.write_atomically text w in
        (elim failure [ none ↦ none | some e ↦ some (wrapped "write state: " e "") ], w')
  ]

  -- func LoadState of internal/control/state.go
  unfoldable pub load_state : W → Result StateDocument
  load_state w = elim (platform.state_file.read_file w) [
    | err e ↦ if is_not_exist e then ok default_state else err (wrapped "read state: " e "")
    | ok text ↦ wrap "parse state: " "" (platform.decode_state default_state text)
  ]
