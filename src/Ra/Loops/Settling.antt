-- ===== src/Ra/Loops/Settling.antt =====
-- How the goroutines of internal/ra/advertiser.go end once `Stop` has closed the connections.
use unifi_6in.Prelude.{
  ℕ, suc, ◌+◌, ◌*◌, length, append-nil, ◌≤◌, ◌<◌, ◌≡◌, refl, ap, ◌∙◌, ◌⊎◌, inl, inr, true, List, [],
  ◌∷◌, ◌++◌, arith,
}
use unifi_6in.Ra.{Advertiser}
use unifi_6in.Ra.Loops.{
  Phase, running, cancelled, closed, stopped, is_done, is_closed, Loop, sending, waiting, reading,
  answering, returned, Sent, LoopStep, LoopsStep, here, there, System, AllReturned, Step,
}

-- how many steps a loop has left at most
unfoldable pub left : Loop → ℕ
left (sending _) = 1
left (waiting _) = 2
left (reading _) = 1
left (answering _ _) = 1
left returned = 0

unfoldable pub left_of : List Loop → ℕ
unfolding left
left_of [] = 0
left_of (l ∷ ls) = left l + left_of ls

-- how many steps of a system are left once the connections are closed, that of Stop included
unfoldable pub steps_left : System → ℕ
unfolding left_of
steps_left s = left_of s.loops + (elim s.phase [ stopped ↦ 0 | _ ↦ 1 ])

-- runs of so many steps
pub data Steps (a : Advertiser) (s : System) : ℕ → System → Type 0 where
  none_taken : Steps a s 0 s
  then_one : {n : ℕ} {t u : System} → Steps a s n t → Step a t u → Steps a s (suc n) u

closed-done : (p : Phase) → is_closed p ≡ true → is_done p ≡ true
closed-done running h = absurd (cc)
closed-done cancelled h = absurd (cc)
closed-done closed h = refl
closed-done stopped h = refl

module _ (a : Advertiser) {p : Phase} (shut : is_closed p ≡ true) where
  LoopStep-left :
      {l l' : Loop} {out : List Sent} → LoopStep a p l out l' → (out ≡ []) × (left l' < left l)
  unfolding left
  LoopStep-left (LoopStep.sends usable) = absurd (cc)
  LoopStep-left (LoopStep.send_fails live) = let h = closed-done p shut in absurd (cc)
  LoopStep-left (LoopStep.send_ends _) = (refl, omega arith)
  LoopStep-left LoopStep.ticks = (refl, omega arith)
  LoopStep-left (LoopStep.wait_ends _) = (refl, omega arith)
  LoopStep-left (LoopStep.read_fails live) = let h = closed-done p shut in absurd (cc)
  LoopStep-left (LoopStep.read_ends _) = (refl, omega arith)
  LoopStep-left (LoopStep.ignores usable) = absurd (cc)
  LoopStep-left (LoopStep.hears _ usable) = absurd (cc)
  LoopStep-left (LoopStep.answers usable) = absurd (cc)
  LoopStep-left (LoopStep.answer_fails live) = let h = closed-done p shut in absurd (cc)
  LoopStep-left (LoopStep.answer_ends _) = (refl, omega arith)

  LoopsStep-left :
      {ls ls' : List Loop} {out : List Sent}
      → LoopsStep a p ls out ls'
      → (out ≡ []) × (left_of ls' < left_of ls)
  unfolding left_of
  LoopsStep-left (here ls st) = let (quiet, less) = LoopStep-left st in (quiet, omega arith)
  LoopsStep-left (there l st) = let (quiet, less) = LoopsStep-left st in (quiet, omega arith)

-- the connections are closed in a system
abbrev pub IsShut : System → Type 0
IsShut s = is_closed s.phase ≡ true

module _ (a : Advertiser) where
  pub Step-settles :
      {s t : System}
      → Step a s t
      → IsShut s
      → (steps_left t < steps_left s) × (t.sent ≡ s.sent) × IsShut t
  unfolding steps_left
  Step-settles (Step.moves sent st) shut =
      let (quiet, less) = LoopsStep-left a shut st in
      (omega arith, ap (λ out. sent ++ out) quiet ∙ append-nil sent, shut)
  Step-settles Step.cancels shut = absurd (cc)
  Step-settles Step.closes shut = absurd (cc)
  Step-settles (Step.waits all) shut = (omega arith, refl, refl)

  Steps-settles :
      {s t : System} {n : ℕ}
      → Steps a s n t
      → IsShut s
      → (n + steps_left t ≤ steps_left s) × (t.sent ≡ s.sent) × IsShut t
  Steps-settles none_taken shut = (omega arith, refl, shut)
  Steps-settles (then_one run st) shut =
      let (few, same, shut') = Steps-settles run shut in
      let (less, same', shut'') = Step-settles st shut' in (omega arith, same' ∙ same, shut'')

  left_of-bounds : (ls : List Loop) → left_of ls ≤ 2 * length ls
  unfolding left_of left
  left_of-bounds [] = omega arith
  left_of-bounds (l ∷ ls) = omega (arith, left_of-bounds ls, bounded l)
    where
      bounded : (l : Loop) → left l ≤ 2
      bounded (sending _) = omega arith
      bounded (waiting _) = omega arith
      bounded (reading _) = omega arith
      bounded (answering _ _) = omega arith
      bounded returned = omega arith

  pub steps_left-bounds : (s : System) → steps_left s ≤ 2 * length s.loops + 1
  unfolding steps_left
  steps_left-bounds s = omega (arith, left_of-bounds s.loops, stop_left s.phase)
    where
      stop_left : (p : Phase) → (elim p [ stopped ↦ 0 | _ ↦ 1 ]) ≤ 1
      stop_left running = omega arith
      stop_left cancelled = omega arith
      stop_left closed = omega arith
      stop_left stopped = omega arith

  -- a loop has returned, or can do so
  loop-progress : (l : Loop) → (l ≡ returned) ⊎ LoopStep a closed l [] returned
  loop-progress (sending e) = inr (LoopStep.send_ends refl)
  loop-progress (waiting e) = inr (LoopStep.wait_ends refl)
  loop-progress (reading e) = inr (LoopStep.read_ends refl)
  loop-progress (answering e d) = inr (LoopStep.answer_ends refl)
  loop-progress returned = inl refl

  -- all loops have returned, or one of them can
  loops-progress :
      (ls : List Loop) → AllReturned ls ⊎ ((ls' : List Loop) × LoopsStep a closed ls [] ls')
  loops-progress [] = inl tt
  loops-progress (l ∷ ls) = elim (loop-progress l) [
    | inr st ↦ inr (returned ∷ ls, here ls st)
    | inl done ↦ elim (loops-progress ls) [
      | inl all ↦ inl (done, all)
      | inr (ls', st) ↦ inr (l ∷ ls', there l st)
    ]
  ]

  pub Stop-progress : (t : System) → IsShut t → (t.phase ≡ stopped) ⊎ ((u : System) × Step a t u)
  Stop-progress t shut = by_phase t.phase t.loops t.sent shut
    where
      by_phase :
          (p : Phase) (ls : List Loop) (sent : List Sent)
          → is_closed p ≡ true
          → (p ≡ stopped)
            ⊎ ((u : System) × Step a (record { phase = p; loops = ls; sent = sent }) u)
      by_phase running ls sent h = absurd (cc)
      by_phase cancelled ls sent h = absurd (cc)
      by_phase stopped ls sent h = inl refl
      by_phase closed ls sent h = elim (loops-progress ls) [
        | inl all ↦ inr (_, Step.waits all)
        | inr (ls', st) ↦ inr (_, Step.moves sent st)
      ]

  -- Once Stop has closed the connections: whatever the loops and Stop do, they do it in at most two
  -- steps for each loop and one for Stop, nothing more is sent, and as long as Stop has not
  -- returned, one of them can go on.
  pub Steps-settle :
      (s t : System) (n : ℕ)
      → s.phase ≡ closed
      → Steps a s n t
      → (n ≤ 2 * length s.loops + 1)
        × (t.sent ≡ s.sent)
        × ((t.phase ≡ stopped) ⊎ ((u : System) × Step a t u))
  Steps-settle s t n h run =
      let shut = ap is_closed h in
      let (few, same, shut') = Steps-settles run shut in
      (omega (arith, steps_left-bounds s), same, Stop-progress t shut')
