-- ===== src/Control/Backend/Chains.antt =====
-- The chains of iptables and ip6tables as far as SystemBackend of internal/control/backend.go works
-- on them: what their command lines document to do to a chain.
pub mod Steps
use unifi_6in.Prelude.{
  String, ◌≡◌, Bool, true, false, ◌&&◌, ◌||◌, Option, none, some, List, [], ◌∷◌, ◌++◌,
  if◌then◌else◌, ◌==◌, ◌⊎◌,
}
use unifi_6in.Errors.{Error}
use unifi_6in.Control.Backend.Exec.{Command, System}

-- a chain of a table, of iptables or of ip6tables
pub record Chain : Type 0 where
  pub binary : String
  pub table : String
  pub name : String

abbrev pub same_chain : Chain → Chain → Bool
same_chain a b = a.binary == b.binary && (a.table == b.table && a.name == b.name)

-- the arguments of a rule after the name of its chain
abbrev pub Rule : Type 0
Rule = List String

pub data Operation : Type 0 where
  -- -N, -F, -A, -I, -D and -C
  create : Chain → Operation
  flush : Chain → Operation
  append : Chain → Rule → Operation
  insert : Chain → Rule → Operation
  delete : Chain → Rule → Operation
  check : Chain → Rule → Operation
  -- a command of another program
  unrelated : Operation

abbrev pub operation : Chain × String × Rule → Option Operation
operation (chain, verb, rule) =
    if verb == "-N"
    then some (create chain)
    else if verb == "-F"
    then some (flush chain)
    else if verb == "-A"
    then some (append chain rule)
    else if verb == "-I"
    then some (insert chain rule)
    else if verb == "-D"
    then some (delete chain rule)
    else if verb == "-C"
    then some (check chain rule)
    else none

-- the chain that a verb names, the verb, and what follows
abbrev pub verb_of : String → String → List String → Option (Chain × String × Rule)
verb_of binary table (verb ∷ name ∷ rule) =
    some (record { binary = binary; table = table; name = name }, verb, rule)
verb_of binary table (_ ∷ []) = none
verb_of binary table [] = none

-- the arguments after an option -t, which names another table than `filter`
abbrev pub arguments_of : String → List String → Option (Chain × String × Rule)
arguments_of binary [] = none
arguments_of binary (option ∷ []) = none
arguments_of binary (option ∷ table ∷ rest) =
    if option == "-t"
    then verb_of binary table rest
    else verb_of binary "filter" (option ∷ table ∷ rest)

abbrev pub is_iptables : Command → Bool
is_iptables c = c.name == "iptables" || c.name == "ip6tables"

abbrev pub operation_in : Option (Chain × String × Rule) → Option Operation
operation_in none = none
operation_in (some parsed) = operation parsed

-- The operation of a command, if it is one of those above.
abbrev pub operation_of : Command → Option Operation
operation_of c = if is_iptables c then operation_in (arguments_of c.name c.args) else some unrelated

abbrev pub removal_in : Option (Chain × String × Rule) → Option Chain
removal_in none = none
removal_in (some (chain, verb, rule)) = if verb == "-X" then some chain else none

-- The chain that a command removes by -X, if it is there, empty and without jumps to it.
abbrev pub removal_of : Command → Option Chain
removal_of c = if is_iptables c then removal_in (arguments_of c.name c.args) else none

-- the rules of a chain, if it is there
abbrev pub Rules : Type 0
Rules = Option (List Rule)

abbrev pub created : Rules → Rules
created none = some []
created (some rules) = some rules

abbrev pub flushed : Rules → Rules
flushed none = none
flushed (some _) = some []

abbrev pub appended : Bool → Rule → Rules → Rules
appended accepted rule none = none
appended accepted rule (some rules) = some (if accepted then rules ++ rule ∷ [] else rules)

abbrev pub inserted : Bool → Rule → Rules → Rules
inserted accepted rule none = none
inserted accepted rule (some rules) = some (if accepted then rule ∷ rules else rules)

abbrev pub same_rule : Rule → Rule → Bool
same_rule [] [] = true
same_rule [] (_ ∷ _) = false
same_rule (_ ∷ _) [] = false
same_rule (x ∷ xs) (y ∷ ys) = x == y && same_rule xs ys

-- the rules without the first one that is the same
abbrev pub without : Rule → List Rule → List Rule
without rule [] = []
without rule (r ∷ rules) =
    let rest = without rule rules in if same_rule rule r then rules else r ∷ rest

abbrev pub deleted : Rule → Rules → Rules
deleted rule none = none
deleted rule (some rules) = some (without rule rules)

-- What an operation makes of the rules of a chain, where `accepts` tells which rules can be added.
abbrev pub operate : (Chain → Rule → Bool) → Operation → Chain → Rules → Rules
operate accepts (create c) chain rules = if same_chain c chain then created rules else rules
operate accepts (flush c) chain rules = if same_chain c chain then flushed rules else rules
operate accepts (append c rule) chain rules =
    if same_chain c chain then appended (accepts c rule) rule rules else rules
operate accepts (insert c rule) chain rules =
    if same_chain c chain then inserted (accepts c rule) rule rules else rules
operate accepts (delete c rule) chain rules =
    if same_chain c chain then deleted rule rules else rules
operate accepts (check c rule) chain rules = rules
operate accepts unrelated chain rules = rules

-- the rules that a chain has after those of a list were added to it, as far as it accepts them
abbrev pub kept : (Rule → Bool) → List Rule → List Rule → List Rule
kept accepts rules [] = rules
kept accepts rules (rule ∷ added) =
    kept accepts (if accepts rule then rules ++ rule ∷ [] else rules) added

-- The chain is there and has the rule.
abbrev pub Has : Rule → Rules → Type 0
Has rule none = ⊥
Has rule (some rules) =
    (before : List Rule) × (after : List Rule) × (rules ≡ before ++ rule ∷ after)

-- The packet filter of a system: its commands do to the chains what they document; -C succeeds only
-- where the chain has the rule, and -X removes its chain or does nothing.
pub record Filter {W : Type 0} (system : System W) : Type 0 where
  pub rules : W → Chain → Rules
  pub accepts : Chain → Rule → Bool
  pub operates :
      (c : Command) (o : Operation) (w : W) (chain : Chain)
      → operation_of c ≡ some o
      → rules (system.execute c w).1 chain ≡ operate accepts o chain (rules w chain)
  pub checks :
      (c : Command) (chain : Chain) (rule : Rule) (w : W)
      → operation_of c ≡ some (check chain rule)
      → (system.execute c w).0.1 ≡ none
      → Has rule (rules w chain)
  pub removes :
      (c : Command) (own : Chain) (w : W) (chain : Chain)
      → removal_of c ≡ some own
      → ((same_chain own chain ≡ true) × (rules (system.execute c w).1 chain ≡ none))
        ⊎ (rules (system.execute c w).1 chain ≡ rules w chain)
