-- ===== src/Control/Backend/Filtering/Emptying.antt =====
-- What the packet filter does once `Reconcile` of SystemBackend in internal/control/backend.go has
-- been given a configuration with the tunnel switched off.
use unifi_6in.Prelude.{
  String, ◌≡◌, refl, ap, Bool, true, false, not, ◌&&◌, ◌||◌, ◌⊎◌, inl, inr, none, some, List, [],
  ◌∷◌, ◌++◌, All, if◌then◌else◌, ◌==◌, arith,
}
use unifi_6in.Errors.{Result, ok, err}
use unifi_6in.Tunnel.{NetworkStatus}
use unifi_6in.Control.State.{AppliedState}
use unifi_6in.Control.Platform.{ReconcileInput}
use unifi_6in.Control.Backend.Exec.{
  Command, System, Machine, Exec, continue, ◌>>=◌, give, combined_output, run_best_effort,
}
use unifi_6in.Control.Backend.Addresses.{gateway_for_prefix}
use unifi_6in.Control.Backend.Chains.{
  Chain, same_chain, Rule, Operation, create, flush, append, insert, delete, check, unrelated,
  operation_of, removal_of, Rules, flushed, deleted, without, operate, Filter,
}
use unifi_6in.Control.Backend.Chains.Steps.{command, afters, quiet-rules}
use unifi_6in.Control.Backend.Dataplane.{quiet, chain_input, chain_forward, chain_mss}
use unifi_6in.Control.Backend.Firewall.{remove_chains, remove_gateways, remove_route, teardown}
use unifi_6in.Control.Backend.Converge.{system_reconcile}
use unifi_6in.Control.Backend.Filtering.{input_chain, forward_chain, mss_chain}

-- The chain is not there or has no rule.
abbrev pub IsEmpty : Rules → Type 0
IsEmpty none = Unit
IsEmpty (some rules) = rules ≡ []

-- operations that add no rule
abbrev shrinks : Operation → Bool
shrinks (create _) = false
shrinks (flush _) = true
shrinks (append _ _) = false
shrinks (insert _ _) = false
shrinks (delete _ _) = true
shrinks (check _ _) = true
shrinks unrelated = true

if-IsEmpty : (b : Bool) (xs ys : Rules) → IsEmpty xs → IsEmpty ys → IsEmpty (if b then xs else ys)
if-IsEmpty true xs ys h k = h
if-IsEmpty false xs ys h k = k

flushed-IsEmpty : (rules : Rules) → IsEmpty (flushed rules)
flushed-IsEmpty none = tt
flushed-IsEmpty (some rules) = refl

deleted-IsEmpty : (rule : Rule) (rules : Rules) → IsEmpty rules → IsEmpty (deleted rule rules)
deleted-IsEmpty rule none h = tt
deleted-IsEmpty rule (some rules) h = ap (without rule) h

operate-IsEmpty :
    (accepts : Chain → Rule → Bool) (o : Operation) (chain : Chain) (rules : Rules)
    → shrinks o ≡ true
    → IsEmpty rules
    → IsEmpty (operate accepts o chain rules)
operate-IsEmpty accepts (create c) chain rules h empty = absurd (cc)
operate-IsEmpty accepts (flush c) chain rules h empty =
    if-IsEmpty (same_chain c chain) (flushed rules) rules (flushed-IsEmpty rules) empty
operate-IsEmpty accepts (append c rule) chain rules h empty = absurd (cc)
operate-IsEmpty accepts (insert c rule) chain rules h empty = absurd (cc)
operate-IsEmpty accepts (delete c rule) chain rules h empty =
    if-IsEmpty (same_chain c chain) (deleted rule rules) rules (deleted-IsEmpty rule rules empty)
      empty
operate-IsEmpty accepts (check c rule) chain rules h empty = empty
operate-IsEmpty accepts unrelated chain rules h empty = empty

-- a command that adds no rule to any chain
abbrev Shrinks : Command → Type 0
Shrinks c =
    ((o : Operation) × (operation_of c ≡ some o) × (shrinks o ≡ true))
    ⊎ ((own : Chain) × (removal_of c ≡ some own))

module _ {W : Type 0} (system : System W) (filter : Filter system) (chain : Chain) where
  abbrev IsEmptied : Machine W → Type 0
  IsEmptied s = IsEmpty (filter.rules s.world chain)

  quiet-IsEmptied :
      (name : String) (args : List String) (s : Machine W)
      → Shrinks (command name args)
      → IsEmptied s
      → IsEmptied (quiet system name args s).1
  unfolding run_best_effort combined_output continue
  quiet-IsEmptied name args s (inl (o, e, h)) empty =
      rw (quiet-rules system filter name args o s chain e)
        (operate-IsEmpty filter.accepts o chain (filter.rules s.world chain) h empty)
  quiet-IsEmptied name args s (inr (own, e)) empty =
      elim (filter.removes (command name args) own s.world chain e) [
        | inl (_, gone) ↦ rw gone tt
        | inr same ↦ rw same empty
      ]

  afters-IsEmptied :
      (commands : List Command) (s : Machine W)
      → All Shrinks commands
      → IsEmptied s
      → IsEmptied (afters system filter commands s)
  afters-IsEmptied [] s h empty = empty
  afters-IsEmptied (c ∷ commands) s (first, rest) empty =
      afters-IsEmptied commands (quiet system c.name c.args s).1 rest
        (quiet-IsEmptied c.name c.args s first empty)

  quiet-flush-IsEmptied :
      (name : String) (args : List String) (s : Machine W)
      → operation_of (command name args) ≡ some (flush chain)
      → same_chain chain chain ≡ true
      → IsEmptied (quiet system name args s).1
  quiet-flush-IsEmptied name args s e same =
      rw (quiet-rules system filter name args (flush chain) s chain e, same)
        (flushed-IsEmpty (filter.rules s.world chain))

  -- The computation leaves the chain empty if it was.
  record Keeps {A : Type 0} (m : Exec W A) : Type 0 where
    kept : (s : Machine W) → IsEmptied s → IsEmptied (m s).1

  continue-IsEmptied :
      {A B : Type 0} (r : Result A × Machine W) (k : A → Exec W B)
      → IsEmptied r.1
      → ((a : A) → Keeps (k a))
      → IsEmptied (continue r k).1
  unfolding continue
  continue-IsEmptied (ok a, s) k empty f = (f a).kept s empty
  continue-IsEmptied (err e, s) k empty f = empty

  bind-Keeps :
      {A B : Type 0} {m : Exec W A} {k : A → Exec W B}
      → Keeps m
      → ((a : A) → Keeps (k a))
      → Keeps (m >>= k)
  bind-Keeps {m = m} {k = k} h f = record {
    kept = λ s empty. continue-IsEmptied (m s) k (h.kept s empty) f;
  }

  give-Keeps : {A : Type 0} {a : A} → Keeps (give {W = W} a)
  give-Keeps = record { kept = λ s empty. empty }

  ip-Keeps : (args : List String) → Keeps (quiet system "ip" args)
  ip-Keeps args = record {
    kept = λ s empty. quiet-IsEmptied "ip" args s (inl (unrelated, refl, refl)) empty;
  }

  remove_gateways-Keeps : (networks : List NetworkStatus) → Keeps (remove_gateways system networks)
  unfolding remove_gateways
  remove_gateways-Keeps [] = give-Keeps
  remove_gateways-Keeps (network ∷ networks) =
      removed (gateway_for_prefix system network.prefix) (remove_gateways-Keeps networks)
    where
      removed :
          (r : Result String)
          → Keeps (remove_gateways system networks)
          → Keeps (elim r [
            | err _ ↦ remove_gateways system networks
            | ok value ↦
                quiet system "ip" ("-6" ∷ "addr" ∷ "del" ∷ value ∷ "dev" ∷ network.interface ∷ [])
                >>= λ _. remove_gateways system networks
          ])
      removed (err e) rest = rest
      removed (ok value) rest = bind-Keeps (ip-Keeps _) (λ _. rest)

  remove_route-Keeps : (applied : AppliedState) → Keeps (remove_route system applied)
  unfolding remove_route
  remove_route-Keeps applied =
      by_test _ (not (applied.remote_endpoint == "") && not (applied.wan_interface == ""))
    where
      by_test :
          (args : List String) (b : Bool) → Keeps (if b then quiet system "ip" args else give tt)
      by_test args true = ip-Keeps args
      by_test args false = give-Keeps

  teardown-IsEmptied :
      (applied : AppliedState) (s : Machine W)
      → IsEmptied (remove_chains system s).1
      → IsEmptied (teardown system applied s).1
  unfolding teardown
  teardown-IsEmptied applied s empty = continue-IsEmptied (remove_chains system s) _ empty (λ _.
      bind-Keeps (remove_gateways-Keeps applied.networks) (λ _.
        bind-Keeps (remove_route-Keeps applied) (λ _. bind-Keeps (ip-Keeps _) (λ _. ip-Keeps _))))

module _ {W : Type 0} (system : System W) (filter : Filter system) where
  -- the commands of teardown that remove a chain
  abbrev removing : String → List String → String → String → List Command
  removing binary table parent name =
      command binary (table ++ "-D" ∷ parent ∷ "-j" ∷ name ∷ [])
      ∷ command binary (table ++ "-F" ∷ name ∷ [])
      ∷ command binary (table ++ "-X" ∷ name ∷ [])
      ∷ []

  abbrev input_removing : List Command
  input_removing = removing "iptables" [] "INPUT" chain_input

  abbrev forward_removing : List Command
  forward_removing = removing "ip6tables" [] "FORWARD" chain_forward

  abbrev mss_removing : List Command
  mss_removing = removing "ip6tables" ("-t" ∷ "mangle" ∷ []) "FORWARD" chain_mss

  remove_chains-afters :
      (s : Machine W)
      → (remove_chains system s).1
        ≡ afters system filter mss_removing
            (afters system filter forward_removing (afters system filter input_removing s))
  unfolding remove_chains run_best_effort combined_output continue
  remove_chains-afters s = refl

  -- Where the three commands are those of a chain, they leave it empty, and add no rule to another.
  record Removes (own : Chain) (commands : List Command) : Type 0 where
    empties : (s : Machine W) → IsEmpty (filter.rules (afters system filter commands s).world own)
    shrink : All Shrinks commands

  removing-Removes :
      (own : Chain) (d f x : Command)
      → same_chain own own ≡ true
      → Shrinks d
      → operation_of (command f.name f.args) ≡ some (flush own)
      → Shrinks x
      → Removes own (d ∷ f ∷ x ∷ [])
  removing-Removes own d f x same first flushing last = record {
    empties = λ s. quiet-IsEmptied system filter own x.name x.args _ last (
        quiet-flush-IsEmptied system filter own f.name f.args (quiet system d.name d.args s).1
          flushing same);
    shrink = (first, (inl (flush own, flushing, refl), (last, tt)));
  }

  input_Removes : Removes input_chain input_removing
  input_Removes = removing-Removes input_chain _ _ _ refl (inl (_, refl, refl)) refl (inr (_, refl))

  forward_Removes : Removes forward_chain forward_removing
  forward_Removes =
      removing-Removes forward_chain _ _ _ refl (inl (_, refl, refl)) refl (inr (_, refl))

  mss_Removes : Removes mss_chain mss_removing
  mss_Removes = removing-Removes mss_chain _ _ _ refl (inl (_, refl, refl)) refl (inr (_, refl))

  -- the three chains of the tunnel
  abbrev pub IsOpen : W → Type 0
  IsOpen w =
      IsEmpty (filter.rules w input_chain)
      × IsEmpty (filter.rules w forward_chain)
      × IsEmpty (filter.rules w mss_chain)

  remove_chains-IsOpen : (s : Machine W) → IsOpen (remove_chains system s).1.world
  remove_chains-IsOpen s =
      let s1 = afters system filter input_removing s in
      let s2 = afters system filter forward_removing s1 in
      rw (remove_chains-afters s) (
        afters-IsEmptied system filter input_chain mss_removing s2 mss_Removes.shrink (
            afters-IsEmptied system filter input_chain forward_removing s1 forward_Removes.shrink
              (input_Removes.empties s)),
        afters-IsEmptied system filter forward_chain mss_removing s2 mss_Removes.shrink
            (forward_Removes.empties s1),
        mss_Removes.empties s2,
      )

  -- Where the commands of iptables do to the chains what they document: after Reconcile of a
  -- configuration that is not valid or whose tunnel is switched off, each of the three chains of
  -- the tunnel is gone or has no rule, whatever it had before.
  pub system_reconcile-IsOpen :
      (i : ReconcileInput) (s : Machine W)
      → i.config_valid && i.config.tunnel.enabled ≡ false
      → IsOpen (system_reconcile system i s).1.world
  unfolding system_reconcile
  system_reconcile-IsOpen i s h =
      let (input, forward, mss) = remove_chains-IsOpen s in
      rw (off i.config_valid i.config.tunnel.enabled h) (
        teardown-IsEmptied system filter input_chain i.applied s input,
        teardown-IsEmptied system filter forward_chain i.applied s forward,
        teardown-IsEmptied system filter mss_chain i.applied s mss,
      )
    where
      off : (a b : Bool) → a && b ≡ false → not a || not b ≡ true
      off a b h = ground arith
