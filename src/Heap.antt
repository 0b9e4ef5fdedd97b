-- ===== src/Heap.antt =====
-- Arrays behind slices: a heap of cells, which only grows.
use unifi_6in.Prelude.{ℕ, ◌+◌, ◌≤◌, ◌<◌, ◌≡◌, refl, ◌∙◌, nat_eq, if◌then◌else◌, arith}

pub record Heap (C : Type 0) : Type 0 where
  -- the first address that is not in use
  pub next : ℕ
  pub cell : ℕ → C

module _ {C : Type 0} where
  unfoldable pub alloc : C → Heap C → ℕ × Heap C
  alloc c h =
      (h.next, record { next = h.next + 1; cell = λ a. if nat_eq a h.next then c else h.cell a })

  -- `h'` has the cells of `h`, and maybe more.
  pub record Extends (h h' : Heap C) : Type 0 where
    pub grows : h.next ≤ h'.next
    pub keeps : (a : ℕ) → a < h.next → h'.cell a ≡ h.cell a

  pub Extends-refl : (h : Heap C) → Extends h h
  Extends-refl h = record { grows = omega arith; keeps = λ _ _. refl }

  pub Extends-trans : (f g h : Heap C) → Extends f g → Extends g h → Extends f h
  Extends-trans f g h e k = record {
    grows = omega (arith, e.grows, k.grows);
    keeps = λ a low. k.keeps a (omega (arith, low, e.grows)) ∙ e.keeps a low;
  }

  pub alloc-Extends : (c : C) (h : Heap C) → Extends h (alloc c h).1
  unfolding alloc
  alloc-Extends c h = record { grows = omega arith; keeps = λ a low. ground arith }

  -- An array that has just been made holds what it was made with, at an address that was not in
  -- use.
  pub cell-alloc :
      (c : C) (h : Heap C)
      → ((alloc c h).1.cell (alloc c h).0 ≡ c)
        × (h.next ≤ (alloc c h).0)
        × ((alloc c h).0 < (alloc c h).1.next)
  unfolding alloc
  cell-alloc c h = (ground arith, omega arith, omega arith)
