-- ===== src/Control/Clone/Independence.antt =====
-- That the Clone methods of internal/tunnel/manager.go and internal/control/state.go are deep.
use unifi_6in.Prelude.{ℕ, ◌≤◌, ◌<◌, ◌≡◌, refl, ◌∙◌, arith}
use unifi_6in.Heap.{Heap, alloc, Extends, Extends-trans, alloc-Extends, cell-alloc}
use unifi_6in.Control.Clone.{
  StatusRef, StateRef, Cell, texts, statuses, texts_in, statuses_in, status_view, state_view,
  copy_texts, copy_statuses, clone_status, clone_state,
}

abbrev Fresh : Heap Cell → Heap Cell → ℕ → Type 0
Fresh h h' a = (h.next ≤ a) × (a < h'.next)

abbrev pub InUse : Heap Cell → ℕ → Type 0
InUse h a = a < h.next

-- the arrays that a struct reaches
module _ (P : ℕ → Type 0) where
  abbrev pub StatusReaches : StatusRef → Type 0
  StatusReaches s = P s.networks × P s.degraded_reasons

  abbrev pub StateReaches : StateRef → Type 0
  StateReaches s = StatusReaches s.status × P s.applied_networks

  module _ (f g : ℕ → Cell) (same : (a : ℕ) → P a → g a ≡ f a) where
    status-same : (s : StatusRef) → StatusReaches s → status_view g s ≡ status_view f s
    status-same s (nets, reasons) = rw (same s.networks nets, same s.degraded_reasons reasons) refl

    state-same : (s : StateRef) → StateReaches s → state_view g s ≡ state_view f s
    state-same s (status, nets) =
        rw (status-same s.status status, same s.applied_networks nets) refl

clone_status-lem :
    (s : StatusRef) (h : Heap Cell)
    → StatusReaches (InUse h) s
    → Extends h (clone_status s h).1
      × StatusReaches (Fresh h (clone_status s h).1) (clone_status s h).0
      × (status_view (clone_status s h).1.cell (clone_status s h).0 ≡ status_view h.cell s)
unfolding clone_status copy_statuses copy_texts
clone_status-lem s h (nets, reasons) =
    let made = statuses (statuses_in (h.cell s.networks)) in
    let (holds, low, high) = cell-alloc made h in
    let grown = alloc-Extends made h in
    let (_, h1) = alloc made h in
    let listed = texts (texts_in (h1.cell s.degraded_reasons)) in
    let (holds', low', high') = cell-alloc listed h1 in
    let grown' = alloc-Extends listed h1 in
    (
      Extends-trans h h1 _ grown grown',
      ((low, omega (arith, high, grown'.grows)), (omega (arith, low', grown.grows), high')),
      rw (grown'.keeps _ high, holds, holds', grown.keeps s.degraded_reasons reasons) refl,
    )

clone_state-lem :
    (s : StateRef) (h : Heap Cell)
    → StateReaches (InUse h) s
    → Extends h (clone_state s h).1
      × StateReaches (Fresh h (clone_state s h).1) (clone_state s h).0
      × (state_view (clone_state s h).1.cell (clone_state s h).0 ≡ state_view h.cell s)
unfolding clone_state copy_statuses
clone_state-lem s h (reached, nets) =
    let (grown, ((low, high), (low', high')), same) = clone_status-lem s.status h reached in
    let (status, h1) = clone_status s.status h in
    let made = statuses (statuses_in (h1.cell s.applied_networks)) in
    let (holds, low'', high'') = cell-alloc made h1 in
    let grown' = alloc-Extends made h1 in
    let (_, h2) = alloc made h1 in
    let kept = status-same (InUse h1) h1.cell h2.cell grown'.keeps status (high, high') ∙ same in
    (
      Extends-trans h h1 h2 grown grown',
      (
        ((low, omega (arith, high, grown'.grows)), (low', omega (arith, high', grown'.grows))),
        (omega (arith, low'', grown.grows), high''),
      ),
      rw (kept, holds, grown.keeps s.applied_networks nets) refl,
    )

-- Clone of a state, whose arrays are on the heap: the clone has the contents of the state, also
-- after any writes to the arrays that were there before the clone; and the state has its contents
-- still, also after any writes to the arrays that the clone has made, or later ones.
pub clone_state-IsDeep :
    (s : StateRef) (h : Heap Cell)
    → StateReaches (InUse h) s
    → ((cell : ℕ → Cell)
        → ((a : ℕ) → h.next ≤ a → cell a ≡ (clone_state s h).1.cell a)
        → state_view cell (clone_state s h).0 ≡ state_view h.cell s)
      × ((cell : ℕ → Cell)
          → ((a : ℕ) → a < h.next → cell a ≡ (clone_state s h).1.cell a)
          → state_view cell s ≡ state_view h.cell s)
clone_state-IsDeep s h reached =
    let (grown, fresh, same) = clone_state-lem s h reached in
    let (c, h') = clone_state s h in
    (
      λ cell agree.
          state-same (Fresh h h') h'.cell cell (λ a between. agree a between.0) c fresh ∙ same,
      λ cell agree.
          state-same (InUse h) h.cell cell (λ a low. agree a low ∙ grown.keeps a low) s reached,
    )
