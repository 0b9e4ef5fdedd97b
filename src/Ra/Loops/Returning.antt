-- ===== src/Ra/Loops/Returning.antt =====
-- `Stop` of internal/ra/advertiser.go can always come to its end, whatever the goroutines are
-- about.
use unifi_6in.Prelude.{ℕ, zero, suc, ◌+◌, ◌*◌, length, ◌≤◌, ◌≡◌, refl, inl, inr, true, List, arith}
use unifi_6in.Ra.{Advertiser}
use unifi_6in.Ra.Loops.{
  Phase, running, cancelled, closed, stopped, is_closed, Loop, Sent, System, Step,
}
use unifi_6in.Ra.Loops.Settling.{
  steps_left, Steps, none_taken, then_one, IsShut, Step-settles, Stop-progress, steps_left-bounds,
}

module _ (a : Advertiser) where
  Steps-first : {s u t : System} {n : ℕ} → Step a s u → Steps a u n t → Steps a s (suc n) t
  Steps-first st none_taken = then_one none_taken st
  Steps-first st (then_one run last) = then_one (Steps-first st run) last

  -- a run that ends where Stop has returned, of at most so many steps
  abbrev pub Returns : System → ℕ → Type 0
  Returns s most = (t : System) × (n : ℕ) × Steps a s n t × (n ≤ most) × (t.phase ≡ stopped)

  shut-Returns : (k : ℕ) (s : System) → IsShut s → steps_left s ≤ k → Returns s k
  shut-Returns zero s shut few = elim (Stop-progress a s shut) [
    | inl done ↦ (s, 0, none_taken, omega arith, done)
    | inr (u, st) ↦ let (less, _, _) = Step-settles a st shut in absurd (omega arith)
  ]
  shut-Returns (suc k) s shut few = elim (Stop-progress a s shut) [
    | inl done ↦ (s, 0, none_taken, omega arith, done)
    | inr (u, st) ↦
        let (less, _, shut') = Step-settles a st shut in
        let (t, n, run, short, done) = shut-Returns k u shut' (omega arith) in
        (t, suc n, Steps-first st run, omega arith, done)
  ]

  -- Wherever the loops and Stop stand, there is a run in which Stop returns, of at most two steps
  -- for each loop and three for Stop.
  pub Stop-Returns : (s : System) → Returns s (2 * length s.loops + 3)
  Stop-Returns s = by_phase s.phase s.loops s.sent
    where
      shut :
          (p : Phase) (ls : List Loop) (sent : List Sent)
          → is_closed p ≡ true
          → Returns (record { phase = p; loops = ls; sent = sent }) (2 * length ls + 1)
      shut p ls sent h =
          let s : System = record { phase = p; loops = ls; sent = sent } in
          shut-Returns (2 * length ls + 1) s h (steps_left-bounds a s)

      by_phase :
          (p : Phase) (ls : List Loop) (sent : List Sent)
          → Returns (record { phase = p; loops = ls; sent = sent }) (2 * length ls + 3)
      by_phase stopped ls sent =
          let (t, n, run, short, done) = shut stopped ls sent refl in (t, n, run, omega arith, done)
      by_phase closed ls sent =
          let (t, n, run, short, done) = shut closed ls sent refl in (t, n, run, omega arith, done)
      by_phase cancelled ls sent =
          let (t, n, run, short, done) = shut closed ls sent refl in
          (t, suc n, Steps-first Step.closes run, omega arith, done)
      by_phase running ls sent =
          let (t, n, run, short, done) = shut closed ls sent refl in
          (
            t,
            suc (suc n),
            Steps-first Step.cancels (Steps-first Step.closes run),
            omega arith,
            done,
          )
