-- ===== src/Tests/FilterTests.antt =====
-- The theorem about the packet filter applied to a system whose commands do nothing but work on
-- chains.
use unifi_6in.Prelude.{
  String, ◌≡◌, refl, ap, sym, ◌∙◌, Bool, true, false, Option, none, some, List, [], ◌∷◌,
  if◌then◌else◌, ◌==◌, eq_iff, arith, pos, Bool-cases, inl, inr,
}
use unifi_6in.Text.{has_colon, fields, lines, trim_space, itoa}
use unifi_6in.Errors.{Error, plain, ok}
use unifi_6in.Config.Validation.{contains_string}
use unifi_6in.Control.Platform.{ReconcileInput}
use unifi_6in.Control.State.{empty_applied_state}
use unifi_6in.Control.Backend.Exec.{
  Command, Machine, System, continue, combined_output, run, run_error, run_best_effort, sleep_ms,
}
use unifi_6in.Control.Backend.Chains.{
  Chain, Rule, Rules, Operation, create, flush, append, insert, delete, check, unrelated,
  operation_of, operation_in, removal_of, removal_in, is_iptables, arguments_of, same_rule, operate,
  Has, Filter,
}
use unifi_6in.Control.Backend.Addresses.{
  ensure_address, ensure_state, query_address, find_ipv6_prefix_state, gateway_for_prefix,
  has_problematic_link_local, read_line,
}
use unifi_6in.Control.Backend.Dataplane.{
  resolve_tunnel_mtu, read_tunnel_mtu, get_wan_ipv4, get_interface_mtu, tunnel_mtu, set_up_networks,
  ensure_lan_ready, reset_ipv6, is_preferred_source, address_from_prefix, select_source,
  default_route_args, int_text,
}
use unifi_6in.Control.Backend.Firewall.{teardown, remove_gateways, remove_route}
use unifi_6in.Control.Backend.Converge.{system_reconcile, converge, prepare, set_up}
use unifi_6in.Control.Backend.Traces.{fresh}
use unifi_6in.Control.Backend.Filtering.{IsFiltering}
use unifi_6in.Control.Backend.Filtering.Emptying.{IsOpen, system_reconcile-IsOpen}
use unifi_6in.Control.Backend.Filtering.Reconciling.{system_reconcile-IsFiltering}
use unifi_6in.Tests.Fixtures.{sample_net, sample_config, sample_tunnel}

same_rule-eq : (xs ys : Rule) → same_rule xs ys ≡ true → xs ≡ ys
same_rule-eq [] [] h = refl
same_rule-eq [] (_ ∷ _) h = absurd (cc)
same_rule-eq (_ ∷ _) [] h = absurd (cc)
same_rule-eq (x ∷ xs) (y ∷ ys) h = ground (arith, eq_iff x y, same_rule-eq xs ys)

-- whether -C finds the rule
finds : Rule → List Rule → Bool
finds rule [] = false
finds rule (r ∷ rules) = if same_rule rule r then true else finds rule rules

finds-Has : (rule : Rule) (rules : List Rule) → finds rule rules ≡ true → Has rule (some rules)
unfolding finds
finds-Has rule [] h = absurd (cc)
finds-Has rule (r ∷ rules) h = elim (Bool-cases (same_rule rule r)) [
  | inl same ↦ ([], rules, ap (λ x. x ∷ rules) (sym (same_rule-eq rule r same)))
  | inr other ↦
      let (before, after, e) = finds-Has rule rules (ground arith) in
      (r ∷ before, after, ap (λ xs. r ∷ xs) e)
]

abbrev missing : Option Error
missing = some (plain "iptables: Bad rule (does a matching rule exist in that chain?).")

checking : Rule → Rules → Option Error
unfolding finds
checking rule none = missing
checking rule (some rules) = if finds rule rules then none else missing

checking-Has : (rule : Rule) (rules : Rules) → checking rule rules ≡ none → Has rule rules
unfolding checking
checking-Has rule none h = absurd (cc)
checking-Has rule (some rules) h = elim (Bool-cases (finds rule rules)) [
  | inl found ↦ finds-Has rule rules found
  | inr lost ↦ absurd (ground arith)
]

answer : Option Operation → (Chain → Rules) → Option Error
unfolding checking
answer (some (check chain rule)) w = checking rule (w chain)
answer (some (create _)) w = none
answer (some (flush _)) w = none
answer (some (append _ _)) w = none
answer (some (insert _ _)) w = none
answer (some (delete _ _)) w = none
answer (some unrelated) w = none
answer none w = none

effect : Option Operation → (Chain → Rules) → Chain → Rules
effect none w chain = w chain
effect (some o) w chain = operate (λ _ _. true) o chain (w chain)

abbrev filter_system : System (Chain → Rules)
filter_system = record {
  net = sample_net;
  is_link_local = λ _. false;
  is_global_unicast = λ _. true;
  is_private = λ _. false;
  find_ipv4 = λ _. some "198.51.100.7";
  find_mtu = λ _. some "1500";
  find_time = λ _. none;
  find_source = λ _. none;
  atoi = λ _. ok (pos 1500);
  parse_millis = λ _. ok 12;
  execute = λ c w. (("", answer (operation_of c) w), effect (operation_of c) w);
  sleep = λ ms w. w;
}

-- In this system -X does nothing, as for a chain with a jump to it.
removal_in-operation_in :
    (parsed : Option (Chain × String × Rule)) (own : Chain)
    → removal_in parsed ≡ some own
    → operation_in parsed ≡ none
removal_in-operation_in none own h = refl
removal_in-operation_in (some (chain, verb, rule)) own h = elim (Bool-cases (verb == "-X")) [
  | inl same ↦ rw ((eq_iff verb "-X").0 same) refl
  | inr other ↦ absurd (ground arith)
]

removal_of-operation_of :
    (c : Command) (own : Chain) → removal_of c ≡ some own → operation_of c ≡ none
removal_of-operation_of c own h = by_name (is_iptables c) h
  where
    parsed : Option (Chain × String × Rule)
    parsed = arguments_of c.name c.args

    by_name :
        (b : Bool)
        → (if b then removal_in parsed else none) ≡ some own
        → (if b then operation_in parsed else some unrelated) ≡ none
    by_name true h = removal_in-operation_in parsed own h
    by_name false h = absurd (cc)

sample_filter : Filter filter_system
unfolding answer effect
sample_filter = record {
  rules = λ w. w;
  accepts = λ _ _. true;
  operates = λ c o w chain e. rw e refl;
  checks =
      λ c chain rule w e found. checking-Has rule (w chain) (ap (λ o. answer o w) (sym e) ∙ found);
  removes = λ c own w chain e. inr (rw (removal_of-operation_of c own e) refl);
}

-- an old rule in the chain FORWARD of ip6tables
abbrev old_rules : Chain → Rules
old_rules chain = if chain.name == "FORWARD" then some (("-j" ∷ "DOCKER" ∷ []) ∷ []) else none

abbrev filter_input : ReconcileInput
filter_input = record {
  config = record sample_config { tunnel = record sample_tunnel { enabled = true; mtu = pos 0 } };
  config_valid = true;
  force = false;
  applied = empty_applied_state;
}

filter_converges : (system_reconcile filter_system filter_input (fresh old_rules)).0.0 ≡ none
unfolding system_reconcile teardown remove_gateways remove_route converge prepare set_up continue
    combined_output run run_error run_best_effort sleep_ms resolve_tunnel_mtu read_tunnel_mtu
    get_wan_ipv4 get_interface_mtu tunnel_mtu set_up_networks ensure_lan_ready reset_ipv6
    is_preferred_source address_from_prefix select_source default_route_args ensure_address
    ensure_state query_address find_ipv6_prefix_state gateway_for_prefix has_problematic_link_local
    read_line contains_string has_colon itoa fields lines trim_space int_text answer effect checking
    finds
filter_converges = refl

system_reconcile-IsFiltering_example :
    IsFiltering filter_system sample_filter filter_input.config.server.wan_interface
      (system_reconcile filter_system filter_input (fresh old_rules)).1.world
system_reconcile-IsFiltering_example =
    system_reconcile-IsFiltering filter_system sample_filter filter_input (fresh old_rules) refl
      refl filter_converges

-- the tunnel switched off again, with the chains that it has left
abbrev off_input : ReconcileInput
off_input = record filter_input { config_valid = false }

abbrev converged : Machine (Chain → Rules)
converged = (system_reconcile filter_system filter_input (fresh old_rules)).1

system_reconcile-IsOpen_example :
    IsOpen filter_system sample_filter (system_reconcile filter_system off_input converged).1.world
system_reconcile-IsOpen_example =
    system_reconcile-IsOpen filter_system sample_filter off_input converged refl
