-- ===== src/Control/Clone.antt =====
-- The Clone methods of internal/tunnel/manager.go and internal/control/state.go over a heap of
-- arrays: here a slice is the address of its array. Elsewhere a status and a state are values,
-- which is what a view gives.
pub mod Independence
use unifi_6in.Prelude.{ℕ, String, ℤ, Bool, List, []}
use unifi_6in.Heap.{Heap, alloc}
use unifi_6in.Tunnel.{NetworkStatus, Status}
use unifi_6in.Control.State.{AppliedState, StateDocument}

-- the slices of a status, and the rest of it, where they are empty
pub record StatusRef : Type 0 where
  pub plain : Status
  pub networks : ℕ
  pub degraded_reasons : ℕ

pub record StateRef : Type 0 where
  pub status : StatusRef
  pub applied : AppliedState
  pub applied_networks : ℕ

-- the arrays
pub data Cell : Type 0 where
  texts : List String → Cell
  statuses : List NetworkStatus → Cell

abbrev pub texts_in : Cell → List String
texts_in (texts xs) = xs
texts_in (statuses _) = []

abbrev pub statuses_in : Cell → List NetworkStatus
statuses_in (statuses xs) = xs
statuses_in (texts _) = []

abbrev pub status_view : (ℕ → Cell) → StatusRef → Status
status_view cell s = record (s.plain) {
  networks = statuses_in (cell s.networks);
  degraded_reasons = texts_in (cell s.degraded_reasons);
}

abbrev pub state_view : (ℕ → Cell) → StateRef → StateDocument
state_view cell s = record {
  status = status_view cell s.status;
  applied = record (s.applied) { networks = statuses_in (cell s.applied_networks) };
}

-- append([]T(nil), xs...): a new array
unfoldable pub copy_texts : ℕ → Heap Cell → ℕ × Heap Cell
copy_texts a h = alloc (texts (texts_in (h.cell a))) h

unfoldable pub copy_statuses : ℕ → Heap Cell → ℕ × Heap Cell
copy_statuses a h = alloc (statuses (statuses_in (h.cell a))) h

-- func (s *Status) Clone, of a status that is not nil
unfoldable pub clone_status : StatusRef → Heap Cell → StatusRef × Heap Cell
unfolding copy_texts copy_statuses
clone_status s h =
    let (nets, h1) = copy_statuses s.networks h in
    let (reasons, h2) = copy_texts s.degraded_reasons h1 in
    (record s { networks = nets; degraded_reasons = reasons }, h2)

-- func (s *StateDocument) Clone, of a state that is not nil
unfoldable pub clone_state : StateRef → Heap Cell → StateRef × Heap Cell
unfolding clone_status copy_statuses
clone_state s h =
    let (status, h1) = clone_status s.status h in
    let (nets, h2) = copy_statuses s.applied_networks h1 in
    (record s { status = status; applied_networks = nets }, h2)

-- func (s *StateDocument) CloneStatus, of a state that is not nil
unfoldable pub clone_status_of : StateRef → Heap Cell → StatusRef × Heap Cell
unfolding clone_status
clone_status_of s h = clone_status s.status h
