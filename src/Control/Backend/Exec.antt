-- ===== src/Control/Backend/Exec.antt =====
-- The command runner of internal/control/backend.go, and the computations that run commands: each
-- takes a machine and returns a result with the machine after it. A machine has the commands that
-- were run on it, the last one first. os/exec, regexp and the classes of net/netip are the fields
-- of the record System.
use unifi_6in.Prelude.{ℕ, String, ℤ, Bool, Option, none, some, List, ◌∷◌}
use unifi_6in.Text.{◌<>◌, join, trim_space}
use unifi_6in.Errors.{Error, wrapped, Result, ok, err}
use unifi_6in.Net.{NetIp, Addr}

pub record Command : Type 0 where
  pub name : String
  pub args : List String

pub record System (W : Type 0) : Type 0 where
  pub net : NetIp
  -- Addr.IsLinkLocalUnicast, Addr.IsGlobalUnicast, Addr.IsPrivate
  pub is_link_local : Addr → Bool
  pub is_global_unicast : Addr → Bool
  pub is_private : Addr → Bool
  -- the first group of the first match of ipv4AddressPattern, interfaceMTUPattern, pingTimePattern
  -- and ipv6RouteSrcPattern
  pub find_ipv4 : String → Option String
  pub find_mtu : String → Option String
  pub find_time : String → Option String
  pub find_source : String → Option String
  -- strconv.Atoi, and the integer part of strconv.ParseFloat
  pub atoi : String → Result ℤ
  pub parse_millis : String → Result ℕ
  -- ExecRunner.CombinedOutput: the output, and the error
  pub execute : Command → W → (String × Option Error) × W
  -- sleepFn, of milliseconds
  pub sleep : ℕ → W → W

pub record Machine (W : Type 0) : Type 0 where
  pub world : W
  pub commands : List Command

abbrev pub Exec : Type 0 → Type 0 → Type 0
Exec W A = Machine W → Result A × Machine W

-- the rest of a computation that may have failed
unfoldable pub continue :
    {W A B : Type 0} → Result A × Machine W → (A → Exec W B) → Result B × Machine W
continue (err e, s) k = (err e, s)
continue (ok a, s) k = k a s

infixl 5 ◌>>=◌ ◌>>◌
abbrev pub ◌>>=◌ : {W A B : Type 0} → Exec W A → (A → Exec W B) → Exec W B
m >>= k = λ s. continue (m s) k

abbrev pub ◌>>◌ : {W A B : Type 0} → Exec W A → Exec W B → Exec W B
m >> next = m >>= λ _. next

-- a value, and a result that needs no command
abbrev pub give : {W A : Type 0} → A → Exec W A
give a = λ s. (ok a, s)

abbrev pub lift : {W A : Type 0} → Result A → Exec W A
lift r = λ s. (r, s)

module _ {W : Type 0} (system : System W) where
  -- b.runner.CombinedOutput(name, args...)
  unfoldable pub combined_output : String → List String → Exec W (String × Option Error)
  combined_output name args s =
      let command : Command = record { name = name; args = args } in
      let (result, w) = system.execute command s.world in
      (ok result, record { world = w; commands = command ∷ s.commands })

  -- the output, or the error between two texts
  abbrev pub or_fail : String → String × Option Error → Result String
  or_fail before (output, none) = ok output
  or_fail before (output, some e) = err (wrapped before e "")

  unfoldable pub run_error : String → List String → String × Option Error → Result (Unit {0})
  run_error name args (output, none) = ok tt
  run_error name args (output, some e) =
      err (wrapped (name <> " " <> join " " args <> ": ") e (" (" <> trim_space output <> ")"))

  -- func (b *SystemBackend) run
  unfoldable pub run : String → List String → Exec W (Unit {0})
  unfolding run_error
  run name args = do result ← combined_output name args; lift (run_error name args result)

  -- func (b *SystemBackend) runBestEffort
  unfoldable pub run_best_effort : String → List String → Exec W (Unit {0})
  run_best_effort name args = do _ ← combined_output name args; give tt

  -- sleepFn(time.Duration(ms) * time.Millisecond)
  unfoldable pub sleep_ms : ℕ → Exec W (Unit {0})
  sleep_ms ms s = (ok tt, record s { world = system.sleep ms s.world })
