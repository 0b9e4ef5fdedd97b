-- ===== src/Control/Backend/Chains/Steps.antt =====
-- The commands with which SystemBackend of internal/control/backend.go makes, empties and fills a
-- chain, and `ensureJump`: what they do to the chains.
use unifi_6in.Prelude.{
  String, ◌≡◌, refl, ap, ◌∙◌, true, false, none, some, List, [], ◌∷◌, ◌++◌, ◌⊎◌, Option-cases, inl,
  inr,
}
use unifi_6in.Control.Backend.Exec.{
  Command, System, Machine, continue, combined_output, run_best_effort,
}
use unifi_6in.Control.Backend.Chains.{
  Chain, same_chain, Rule, Operation, create, flush, append, insert, check, operation_of, Rules,
  inserted, operate, kept, Has, Filter,
}
use unifi_6in.Control.Backend.Dataplane.{quiet}
use unifi_6in.Control.Backend.Firewall.{ensure_jump}

abbrev pub command : String → List String → Command
command name args = record { name = name; args = args }

-- the rule is there if the chain is
abbrev pub IsInPlace : Rule → Rules → Type 0
IsInPlace rule none = Unit
IsInPlace rule (some rules) = Has rule (some rules)

Has-IsInPlace : (rule : Rule) (rules : Rules) → Has rule rules → IsInPlace rule rules
Has-IsInPlace rule none h = tt
Has-IsInPlace rule (some rules) h = h

module _ {W : Type 0} (system : System W) (filter : Filter system) where
  abbrev rules_of : Machine W → Chain → Rules
  rules_of s chain = filter.rules s.world chain

  pub quiet-rules :
      (name : String) (args : List String) (o : Operation) (s : Machine W) (chain : Chain)
      → operation_of (command name args) ≡ some o
      → rules_of (quiet system name args s).1 chain
        ≡ operate filter.accepts o chain (rules_of s chain)
  unfolding run_best_effort combined_output continue
  quiet-rules name args o s chain h = filter.operates (command name args) o s.world chain h

  -- commands whose errors are ignored, one after the other
  abbrev pub afters : List Command → Machine W → Machine W
  afters [] s = s
  afters (c ∷ commands) s = afters commands (quiet system c.name c.args s).1

  abbrev folded : List Operation → Chain → Rules → Rules
  folded [] chain rules = rules
  folded (o ∷ operations) chain rules =
      folded operations chain (operate filter.accepts o chain rules)

  abbrev Are : List Command → List Operation → Type 0
  Are [] [] = Unit
  Are [] (_ ∷ _) = ⊥
  Are (_ ∷ _) [] = ⊥
  Are (c ∷ commands) (o ∷ operations) =
      (operation_of (command c.name c.args) ≡ some o) × Are commands operations

  afters-rules :
      (commands : List Command) (operations : List Operation) (s : Machine W) (chain : Chain)
      → Are commands operations
      → rules_of (afters commands s) chain ≡ folded operations chain (rules_of s chain)
  afters-rules [] [] s chain h = refl
  afters-rules [] (_ ∷ _) s chain h = absurd h
  afters-rules (_ ∷ _) [] s chain h = absurd h
  afters-rules (c ∷ commands) (o ∷ operations) s chain (first, rest) =
      afters-rules commands operations (quiet system c.name c.args s).1 chain rest
      ∙ ap (folded operations chain) (quiet-rules c.name c.args o s chain first)

  abbrev appends : Chain → List Rule → List Operation
  appends own [] = []
  appends own (rule ∷ rules) = append own rule ∷ appends own rules

  -- a chain that is made, emptied and filled
  abbrev filling : Chain → List Rule → List Operation
  filling own rules = create own ∷ flush own ∷ appends own rules

  appends-own :
      (own : Chain) (added rules : List Rule)
      → same_chain own own ≡ true
      → folded (appends own added) own (some rules) ≡ some (kept (filter.accepts own) rules added)
  appends-own own [] rules h = refl
  appends-own own (rule ∷ added) rules h = rw (folded, h) (appends-own own added _ h)

  filling-own :
      (own : Chain) (added : List Rule) (rules : Rules)
      → same_chain own own ≡ true
      → folded (filling own added) own rules ≡ some (kept (filter.accepts own) [] added)
  filling-own own added none h = rw (folded, h) (appends-own own added [] h)
  filling-own own added (some rules) h = rw (folded, h) (appends-own own added [] h)

  appends-other :
      (own chain : Chain) (added : List Rule) (rules : Rules)
      → same_chain own chain ≡ false
      → folded (appends own added) chain rules ≡ rules
  appends-other own chain [] rules h = refl
  appends-other own chain (rule ∷ added) rules h =
      rw (folded, h) (appends-other own chain added rules h)

  filling-other :
      (own chain : Chain) (added : List Rule) (rules : Rules)
      → same_chain own chain ≡ false
      → folded (filling own added) chain rules ≡ rules
  filling-other own chain added rules h = rw (folded, h) (appends-other own chain added rules h)

  abbrev jump_to : String → Rule
  jump_to target = "-j" ∷ target ∷ []

  module _ (binary : String) (table : List String) (parent : Chain) (target : String)
      (checking : operation_of (command binary (table ++ "-C" ∷ parent.name ∷ "-j" ∷ target ∷ []))
        ≡ some (check parent (jump_to target)))
      (inserting : operation_of (command binary (table ++ "-I" ∷ parent.name ∷ "-j" ∷ target ∷ []))
        ≡ some (insert parent (jump_to target))) where
    abbrev checked : Machine W → Machine W
    checked s =
        (combined_output system binary (table ++ "-C" ∷ parent.name ∷ "-j" ∷ target ∷ []) s).1

    ensure_jump-cases :
        (s : Machine W)
        → ((ensure_jump system binary table parent.name target s).1 ≡ checked s)
            × Has (jump_to target) (rules_of s parent)
          ⊎ ((ensure_jump system binary table parent.name target s).1
              ≡ (quiet system binary
                  (table ++ "-I" ∷ parent.name ∷ "-j" ∷ target ∷ [])
                  (checked s)).1)
    unfolding ensure_jump combined_output continue
    ensure_jump-cases s =
        let c = command binary (table ++ "-C" ∷ parent.name ∷ "-j" ∷ target ∷ []) in
        elim (Option-cases (system.execute c s.world).0.1) [
          | inl h ↦ rw h (inl (refl, filter.checks c parent (jump_to target) s.world checking h))
          | inr (e, h) ↦ rw h (inr refl)
        ]

    checked-rules : (s : Machine W) (chain : Chain) → rules_of (checked s) chain ≡ rules_of s chain
    unfolding combined_output
    checked-rules s chain = filter.operates _ _ s.world chain checking

    -- ensureJump leaves every other chain as it is.
    ensure_jump-other :
        (s : Machine W) (chain : Chain)
        → same_chain parent chain ≡ false
        → rules_of (ensure_jump system binary table parent.name target s).1 chain ≡ rules_of s chain
    ensure_jump-other s chain other = elim (ensure_jump-cases s) [
      | inl (e, _) ↦ rw e (checked-rules s chain)
      | inr e ↦ rw e (
          quiet-rules binary _ _ (checked s) chain inserting
          ∙ (rw (operate, other) (checked-rules s chain)))
    ]

    -- After ensureJump the parent has the jump, where it is there and accepts it.
    pub ensure_jump-parent :
        (s : Machine W)
        → same_chain parent parent ≡ true
        → filter.accepts parent (jump_to target) ≡ true
        → IsInPlace
            (jump_to target)
            (rules_of (ensure_jump system binary table parent.name target s).1 parent)
    ensure_jump-parent s same accepted = elim (ensure_jump-cases s) [
      | inl (e, has) ↦
          rw (e, checked-rules s parent) (Has-IsInPlace (jump_to target) (rules_of s parent) has)
      | inr e ↦
          rw (e, quiet-rules binary _ _ (checked s) parent inserting, same, accepted)
            (inserted-IsInPlace (rules_of (checked s) parent))
    ]
      where
        inserted-IsInPlace :
            (rules : Rules) → IsInPlace (jump_to target) (inserted true (jump_to target) rules)
        inserted-IsInPlace none = tt
        inserted-IsInPlace (some rules) = ([], rules, refl)

    module _ (own : Chain) (commands : List Command) (added : List Rule)
        (are : Are commands (filling own added)) where
      -- the commands of a chain, and then its jump
      abbrev pub step : Machine W → Machine W
      step s = (ensure_jump system binary table parent.name target (afters commands s)).1

      pub step-own :
          (s : Machine W)
          → same_chain own own ≡ true
          → same_chain parent own ≡ false
          → rules_of (step s) own ≡ some (kept (filter.accepts own) [] added)
      step-own s same other =
          ensure_jump-other (afters commands s) own other
          ∙ afters-rules commands (filling own added) s own are
          ∙ filling-own own added (rules_of s own) same

      pub step-other :
          (s : Machine W) (chain : Chain)
          → same_chain own chain ≡ false
          → same_chain parent chain ≡ false
          → rules_of (step s) chain ≡ rules_of s chain
      step-other s chain other apart =
          ensure_jump-other (afters commands s) chain apart
          ∙ afters-rules commands (filling own added) s chain are
          ∙ filling-other own chain added (rules_of s chain) other
