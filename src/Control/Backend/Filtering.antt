-- ===== src/Control/Backend/Filtering.antt =====
-- The three chains of SystemBackend in internal/control/backend.go, as `Reconcile` fills them.
pub mod Reconciling
pub mod Emptying
use mathlib.Core.Path.{subst}
use unifi_6in.Prelude.{
  String, ◌≡◌, refl, ap, sym, ◌∙◌, Bool, true, false, Option, none, some, List, [], ◌∷◌, ◌++◌, ◌⊎◌,
  Option-cases, if◌then◌else◌, inl, inr,
}
use unifi_6in.Errors.{Error, Result, Result-cases, ok, err}
use unifi_6in.Tunnel.{interface_name}
use unifi_6in.Config.Types.{Config}
use unifi_6in.Control.Platform.{ReconcileInput}
use unifi_6in.Control.Backend.Exec.{
  Command, System, Machine, Exec, continue, ◌>>=◌, combined_output, run_best_effort,
}
use unifi_6in.Control.Backend.Chains.{
  Chain, same_chain, Rule, Operation, create, flush, append, insert, check, operation_of, Rules,
  created, flushed, inserted, operate, kept, Has, Filter,
}
use unifi_6in.Control.Backend.Dataplane.{quiet, chain_input, chain_forward, chain_mss}
use unifi_6in.Control.Backend.Firewall.{
  ensure_jump, add_input_chain, add_forward_chain, add_mss_chain, teardown,
}
use unifi_6in.Control.Backend.Converge.{prepare, with_mtu, set_up, converge, system_reconcile}
use unifi_6in.Control.Backend.Laws.{system_reconcile-on}
use unifi_6in.Control.Backend.Chains.Steps.{
  command, IsInPlace, afters, step, step-own, step-other, ensure_jump-parent,
}

abbrev pub input_chain : Chain
input_chain = record { binary = "iptables"; table = "filter"; name = chain_input }

abbrev pub input_parent : Chain
input_parent = record { binary = "iptables"; table = "filter"; name = "INPUT" }

-- protocol 41, the tunnel's own, from the WAN
abbrev pub input_rules : String → List Rule
input_rules wan = ("-i" ∷ wan ∷ "-p" ∷ "41" ∷ "-j" ∷ "ACCEPT" ∷ []) ∷ []

abbrev pub forward_chain : Chain
forward_chain = record { binary = "ip6tables"; table = "filter"; name = chain_forward }

abbrev pub forward_parent : Chain
forward_parent = record { binary = "ip6tables"; table = "filter"; name = "FORWARD" }

-- answers from the tunnel, all that leaves by it, and no new connection from it
abbrev pub forward_rules : List Rule
forward_rules =
    ("-i" ∷ interface_name ∷ "-m" ∷ "state" ∷ "--state" ∷ "ESTABLISHED,RELATED" ∷ "-j" ∷ "ACCEPT"
      ∷ [])
    ∷ ("-o" ∷ interface_name ∷ "-j" ∷ "ACCEPT" ∷ [])
    ∷ ("-i" ∷ interface_name ∷ "-m" ∷ "state" ∷ "--state" ∷ "NEW" ∷ "-j" ∷ "DROP" ∷ [])
    ∷ []

abbrev pub mss_chain : Chain
mss_chain = record { binary = "ip6tables"; table = "mangle"; name = chain_mss }

abbrev pub mss_parent : Chain
mss_parent = record { binary = "ip6tables"; table = "mangle"; name = "FORWARD" }

abbrev pub mss_rules : List Rule
mss_rules =
    ("-o" ∷ interface_name ∷ "-p" ∷ "tcp" ∷ "--tcp-flags" ∷ "SYN,RST" ∷ "SYN" ∷ "-j" ∷ "TCPMSS"
      ∷ "--clamp-mss-to-pmtu" ∷ [])
    ∷ []

module _ {W : Type 0} (system : System W) (filter : Filter system) where
  -- A chain has the rules, those of them that it accepts, and no others, and its parent, where it
  -- is there and accepts it, has a jump to it.
  abbrev pub IsChain : W → Chain → Chain → List Rule → Type 0
  IsChain w own parent rules =
      (filter.rules w own ≡ some (kept (filter.accepts own) [] rules))
      × (filter.accepts parent ("-j" ∷ own.name ∷ []) ≡ true
          → IsInPlace ("-j" ∷ own.name ∷ []) (filter.rules w parent))

  -- the three chains of the tunnel
  pub record IsFiltering (wan : String) (w : W) : Type 0 where
    pub input : IsChain w input_chain input_parent (input_rules wan)
    pub forward : IsChain w forward_chain forward_parent forward_rules
    pub mss : IsChain w mss_chain mss_parent mss_rules

  abbrev pub filling_commands : String → List String → String → List Rule → List Command
  filling_commands binary table name rules =
      command binary (table ++ "-N" ∷ name ∷ [])
      ∷ command binary (table ++ "-F" ∷ name ∷ [])
      ∷ appending rules
    where
      appending : List Rule → List Command
      appending [] = []
      appending (rule ∷ more) = command binary (table ++ "-A" ∷ name ∷ rule) ∷ appending more

  abbrev pub mangle : List String
  mangle = "-t" ∷ "mangle" ∷ []

  abbrev pub input_step : String → Machine W → Machine W
  input_step wan =
      step system filter "iptables" [] input_parent chain_input refl refl input_chain
        (filling_commands "iptables" [] chain_input (input_rules wan)) (input_rules wan)
        (refl, (refl, (refl, tt)))

  abbrev pub forward_step : Machine W → Machine W
  forward_step =
      step system filter "ip6tables" [] forward_parent chain_forward refl refl forward_chain
        (filling_commands "ip6tables" [] chain_forward forward_rules) forward_rules
        (refl, (refl, (refl, (refl, (refl, tt)))))

  abbrev pub mss_step : Machine W → Machine W
  mss_step =
      step system filter "ip6tables" mangle mss_parent chain_mss refl refl mss_chain
        (filling_commands "ip6tables" mangle chain_mss mss_rules) mss_rules
        (refl, (refl, (refl, tt)))

  -- The chains of Reconcile are such steps.
  pub add_input_chain-step :
      (wan : String) (s : Machine W) → (add_input_chain system wan s).1 ≡ input_step wan s
  unfolding add_input_chain run_best_effort combined_output continue
  add_input_chain-step wan s = refl

  pub add_forward_chain-step : (s : Machine W) → (add_forward_chain system s).1 ≡ forward_step s
  unfolding add_forward_chain run_best_effort combined_output continue
  add_forward_chain-step s = refl

  pub add_mss_chain-step : (s : Machine W) → (add_mss_chain system s).1 ≡ mss_step s
  unfolding add_mss_chain run_best_effort combined_output continue
  add_mss_chain-step s = refl

  input_step-IsChain :
      (wan : String) (s : Machine W)
      → IsChain (input_step wan s).world input_chain input_parent (input_rules wan)
  input_step-IsChain wan s = (
    step-own system filter "iptables" [] input_parent chain_input refl refl input_chain
        (filling_commands "iptables" [] chain_input (input_rules wan)) (input_rules wan)
        (refl, (refl, (refl, tt))) s refl refl,
    ensure_jump-parent system filter "iptables" [] input_parent chain_input refl refl
        (afters system filter (filling_commands "iptables" [] chain_input (input_rules wan)) s)
        refl,
  )

  forward_step-IsChain :
      (s : Machine W) → IsChain (forward_step s).world forward_chain forward_parent forward_rules
  forward_step-IsChain s = (
    step-own system filter "ip6tables" [] forward_parent chain_forward refl refl forward_chain
        (filling_commands "ip6tables" [] chain_forward forward_rules) forward_rules
        (refl, (refl, (refl, (refl, (refl, tt))))) s refl refl,
    ensure_jump-parent system filter "ip6tables" [] forward_parent chain_forward refl refl
        (afters system filter (filling_commands "ip6tables" [] chain_forward forward_rules) s) refl,
  )

  mss_step-IsChain : (s : Machine W) → IsChain (mss_step s).world mss_chain mss_parent mss_rules
  mss_step-IsChain s = (
    step-own system filter "ip6tables" mangle mss_parent chain_mss refl refl mss_chain
        (filling_commands "ip6tables" mangle chain_mss mss_rules) mss_rules
        (refl, (refl, (refl, tt))) s refl refl,
    ensure_jump-parent system filter "ip6tables" mangle mss_parent chain_mss refl refl
        (afters system filter (filling_commands "ip6tables" mangle chain_mss mss_rules) s) refl,
  )

  forward_step-other :
      (s : Machine W) (chain : Chain)
      → same_chain forward_chain chain ≡ false
      → same_chain forward_parent chain ≡ false
      → filter.rules (forward_step s).world chain ≡ filter.rules s.world chain
  forward_step-other s chain =
      step-other system filter "ip6tables" [] forward_parent chain_forward refl refl forward_chain
        (filling_commands "ip6tables" [] chain_forward forward_rules) forward_rules
        (refl, (refl, (refl, (refl, (refl, tt))))) s chain

  mss_step-other :
      (s : Machine W) (chain : Chain)
      → same_chain mss_chain chain ≡ false
      → same_chain mss_parent chain ≡ false
      → filter.rules (mss_step s).world chain ≡ filter.rules s.world chain
  mss_step-other s chain =
      step-other system filter "ip6tables" mangle mss_parent chain_mss refl refl mss_chain
        (filling_commands "ip6tables" mangle chain_mss mss_rules) mss_rules
        (refl, (refl, (refl, tt))) s chain

  IsChain-same :
      (w v : W) (own parent : Chain) (rules : List Rule)
      → filter.rules v own ≡ filter.rules w own
      → filter.rules v parent ≡ filter.rules w parent
      → IsChain w own parent rules
      → IsChain v own parent rules
  IsChain-same w v own parent rules e h (filled, jump) = rw (e, h) (filled, jump)

  pub steps-IsFiltering :
      (wan : String) (s : Machine W)
      → IsFiltering wan (mss_step (forward_step (input_step wan s))).world
  steps-IsFiltering wan s =
      let s1 = input_step wan s in
      let s2 = forward_step s1 in
      let s3 = mss_step s2 in
      record {
        input =
            IsChain-same s1.world s3.world input_chain input_parent (input_rules wan)
              (mss_step-other s2 input_chain refl refl
                ∙ forward_step-other s1 input_chain refl refl)
              (mss_step-other s2 input_parent refl refl
                ∙ forward_step-other s1 input_parent refl refl)
              (input_step-IsChain wan s);
        forward =
            IsChain-same s2.world s3.world forward_chain forward_parent forward_rules
              (mss_step-other s2 forward_chain refl refl)
              (mss_step-other s2 forward_parent refl refl) (forward_step-IsChain s1);
        mss = mss_step-IsChain s2;
      }
