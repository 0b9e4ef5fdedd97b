-- ===== src/Config/Clone/Copying.antt =====
-- What the Clone methods of internal/config/config.go make: new arrays with the same contents.
use unifi_6in.Prelude.{ℕ, ◌≤◌, ◌<◌, ◌≡◌, refl, ap, ◌∙◌, List, [], ◌∷◌, All, arith}
use unifi_6in.Heap.{Heap, alloc, Extends, Extends-refl, Extends-trans, alloc-Extends, cell-alloc}
use unifi_6in.Config.Clone.{
  LanRef, ProfileRef, DocumentRef, Cell, strings, networks, profiles, strings_in, networks_in,
  profiles_in, lan_view, profile_view, profiles_view, document_view, copy_strings, copy_networks,
  clone_lan, clone_profile_config, clone_profile, clone_profiles, clone_document,
}

-- the arrays that a struct reaches
module _ (P : ℕ → Type 0) where
  abbrev pub LanReaches : LanRef → Type 0
  LanReaches l = P l.dns × P l.networks

  abbrev pub ProfileReaches : ProfileRef → Type 0
  ProfileReaches p = LanReaches p.config.lan × P p.validation_errors

  abbrev pub DocumentReaches : (ℕ → Cell) → DocumentRef → Type 0
  DocumentReaches cell d = P d.profiles × All ProfileReaches (profiles_in (cell d.profiles))

abbrev pub Between : ℕ → ℕ → ℕ → Type 0
Between low high a = (low ≤ a) × (a < high)

-- what two heaps have in common
module _ (P : ℕ → Type 0) (f g : ℕ → Cell) (same : (a : ℕ) → P a → g a ≡ f a) where
  pub lan-same : (l : LanRef) → LanReaches P l → lan_view g l ≡ lan_view f l
  lan-same l (dns, nets) = rw (same l.dns dns, same l.networks nets) refl

  profile-same : (p : ProfileRef) → ProfileReaches P p → profile_view g p ≡ profile_view f p
  profile-same p ((dns, nets), errors) =
      rw
        (
          same p.config.lan.dns dns,
          same p.config.lan.networks nets,
          same p.validation_errors errors,
        )
        refl

  all-same :
      (ps : List ProfileRef) → All (ProfileReaches P) ps → profiles_view g ps ≡ profiles_view f ps
  all-same [] h = refl
  all-same (p ∷ ps) (first, rest) =
      ap (λ q. q ∷ profiles_view g ps) (profile-same p first)
      ∙ ap (λ qs. profile_view f p ∷ qs) (all-same ps rest)

  pub document-same :
      (d : DocumentRef) → DocumentReaches P f d → document_view g d ≡ document_view f d
  document-same d (array, reached) = rw (same d.profiles array, all-same _ reached) refl

copy_strings-lem :
    (a : ℕ) (h : Heap Cell)
    → Extends h (copy_strings a h).1
      × Between h.next (copy_strings a h).1.next (copy_strings a h).0
      × ((copy_strings a h).1.cell (copy_strings a h).0 ≡ strings (strings_in (h.cell a)))
unfolding copy_strings
copy_strings-lem a h =
    let c : Cell = strings (strings_in (h.cell a)) in
    let (holds, low, high) = cell-alloc c h in (alloc-Extends c h, (low, high), holds)

copy_networks-lem :
    (a : ℕ) (h : Heap Cell)
    → Extends h (copy_networks a h).1
      × Between h.next (copy_networks a h).1.next (copy_networks a h).0
      × ((copy_networks a h).1.cell (copy_networks a h).0 ≡ networks (networks_in (h.cell a)))
unfolding copy_networks
copy_networks-lem a h =
    let c : Cell = networks (networks_in (h.cell a)) in
    let (holds, low, high) = cell-alloc c h in (alloc-Extends c h, (low, high), holds)

-- the arrays of a heap
abbrev pub Below : Heap Cell → ℕ → Type 0
Below h a = a < h.next

pub clone_lan-lem :
    (l : LanRef) (h : Heap Cell)
    → LanReaches (Below h) l
    → Extends h (clone_lan l h).1
      × LanReaches (Between h.next (clone_lan l h).1.next) (clone_lan l h).0
      × (lan_view (clone_lan l h).1.cell (clone_lan l h).0 ≡ lan_view h.cell l)
unfolding clone_lan
clone_lan-lem l h (dns, nets) =
    let (grown, (low, high), holds) = copy_strings-lem l.dns h in
    let (a, h1) = copy_strings l.dns h in
    let (grown', (low', high'), holds') = copy_networks-lem l.networks h1 in
    (
      Extends-trans h h1 _ grown grown',
      ((low, omega (arith, high, grown'.grows)), (omega (arith, low', grown.grows), high')),
      rw (grown'.keeps a high, holds, holds', grown.keeps l.networks nets) refl,
    )

module _ {low high low' high' : ℕ} (down : low' ≤ low) (up : high ≤ high') where
  LanReaches-widen :
      (l : LanRef) → LanReaches (Between low high) l → LanReaches (Between low' high') l
  LanReaches-widen l ((a, b), (c, d)) = ((omega arith, omega arith), (omega arith, omega arith))

  ProfileReaches-widen :
      (p : ProfileRef) → ProfileReaches (Between low high) p → ProfileReaches (Between low' high') p
  ProfileReaches-widen p (lan, (a, b)) =
      (LanReaches-widen p.config.lan lan, (omega arith, omega arith))

  All-widen :
      (ps : List ProfileRef)
      → All (ProfileReaches (Between low high)) ps
      → All (ProfileReaches (Between low' high')) ps
  All-widen [] h = tt
  All-widen (p ∷ ps) (first, rest) = (ProfileReaches-widen p first, All-widen ps rest)

clone_profile-lem :
    (p : ProfileRef) (h : Heap Cell)
    → ProfileReaches (Below h) p
    → Extends h (clone_profile p h).1
      × ProfileReaches (Between h.next (clone_profile p h).1.next) (clone_profile p h).0
      × (profile_view (clone_profile p h).1.cell (clone_profile p h).0 ≡ profile_view h.cell p)
unfolding clone_profile clone_profile_config
clone_profile-lem p h (reached, errors) =
    let (grown, fresh, same) = clone_lan-lem p.config.lan h reached in
    let (lan', h1) = clone_lan p.config.lan h in
    let ((low, high), (low', high')) = fresh in
    let (grown', (low'', high''), holds) = copy_strings-lem p.validation_errors h1 in
    let (_, h2) = copy_strings p.validation_errors h1 in
    let kept = lan-same (Below h1) h1.cell h2.cell grown'.keeps lan' (high, high') ∙ same in
    (
      Extends-trans h h1 h2 grown grown',
      (
        LanReaches-widen (omega arith) grown'.grows lan' fresh,
        (omega (arith, low'', grown.grows), high''),
      ),
      rw (kept, holds, grown.keeps p.validation_errors errors) refl,
    )

All-older :
    (h h' : Heap Cell)
    → Extends h h'
    → (ps : List ProfileRef) → All (ProfileReaches (Below h)) ps
    → All (ProfileReaches (Below h')) ps
All-older h h' grown [] all = tt
All-older h h' grown (p ∷ ps) (((a, b), c), rest) = (
  ((omega (arith, a, grown.grows), omega (arith, b, grown.grows)), omega (arith, c, grown.grows)),
  All-older h h' grown ps rest,
)

clone_profiles-lem :
    (ps : List ProfileRef) (h : Heap Cell)
    → All (ProfileReaches (Below h)) ps
    → Extends h (clone_profiles ps h).1
      × All (ProfileReaches (Between h.next (clone_profiles ps h).1.next)) (clone_profiles ps h).0
      × (profiles_view (clone_profiles ps h).1.cell (clone_profiles ps h).0
          ≡ profiles_view h.cell ps)
unfolding clone_profiles
clone_profiles-lem [] h all = (Extends-refl h, tt, refl)
clone_profiles-lem (p ∷ ps) h (first, rest) =
    let (grown, fresh, same) = clone_profile-lem p h first in
    let (p', h1) = clone_profile p h in
    let (grown', fresh', same') = clone_profiles-lem ps h1 (All-older h h1 grown ps rest) in
    let (ps', h2) = clone_profiles ps h1 in
    let (((_, a), (_, b)), (_, c)) = fresh in
    let kept = profile-same (Below h1) h1.cell h2.cell grown'.keeps p' ((a, b), c) ∙ same in
    let others = same' ∙ all-same (Below h) h.cell h1.cell grown.keeps ps rest in
    (
      Extends-trans h h1 h2 grown grown',
      (
        ProfileReaches-widen (omega arith) grown'.grows p' fresh,
        All-widen grown.grows (omega arith) ps' fresh',
      ),
      rw (kept, others) refl,
    )

pub clone_document-lem :
    (d : DocumentRef) (h : Heap Cell)
    → DocumentReaches (Below h) h.cell d
    → Extends h (clone_document d h).1
      × DocumentReaches
          (Between h.next (clone_document d h).1.next)
          (clone_document d h).1.cell
          (clone_document d h).0
      × (document_view (clone_document d h).1.cell (clone_document d h).0 ≡ document_view h.cell d)
unfolding clone_document
clone_document-lem d h (array, reached) =
    let ps = profiles_in (h.cell d.profiles) in
    let (grown, fresh, same) = clone_profiles-lem ps h reached in
    let (cloned, h1) = clone_profiles ps h in
    let grown' = alloc-Extends (profiles cloned) h1 in
    let (holds, low, high) = cell-alloc (profiles cloned) h1 in
    let (_, h2) = alloc (profiles cloned) h1 in
    let below = All-below h h1 cloned fresh in
    let kept = all-same (Below h1) h1.cell h2.cell grown'.keeps cloned below ∙ same in
    (
      Extends-trans h h1 h2 grown grown',
      (
        (omega (arith, low, grown.grows), high),
        rw holds (All-widen (omega arith) grown'.grows cloned fresh),
      ),
      rw (holds, kept) refl,
    )
  where
    All-below :
        (f g : Heap Cell) (ps : List ProfileRef)
        → All (ProfileReaches (Between f.next g.next)) ps
        → All (ProfileReaches (Below g)) ps
    All-below f g [] all = tt
    All-below f g (p ∷ ps) ((((_, a), (_, b)), (_, c)), rest) = (((a, b), c), All-below f g ps rest)
