-- ===== src/Logging/Rotation.antt =====
-- The size of the log of internal/logging/logging.go once `Init` has opened it.
use unifi_6in.Prelude.{
  ℕ, ◌<◌, String, ◌≡◌, ◌≢◌, refl, sym, ◌∙◌, Bool, true, false, Option, none, some, ltb,
  if◌then◌else◌, ◌==◌, arith, eq_iff, eq_refl, Bool-cases, inl, inr,
}
use mathlib.Core.Path.{subst}
use text.Mathlib.TextLemmas.{append_cancel_left, append-nil}
use unifi_6in.Errors.{Error, is_not_exist, Result, ok, err}
use unifi_6in.Logging.Logger.{
  LogOs, Logger, max_log_file_bytes, log_file_name, backup_of, rotate, after_stat, rotate_if_large,
  close_old, install, after_rotate, after_mkdir, init,
}

-- What the calls of package os do to the sizes of the files, none being the size of a missing one.
pub record Sizes {W : Type 0} (os : LogOs W) : Type 0 where
  pub size_of : W → String → Option ℕ
  pub stat_gives : (path : String) (w : W) (n : ℕ) → os.stat path w ≡ ok n → size_of w path ≡ some n
  pub stat_misses :
      (path : String) (w : W) (e : Error)
      → os.stat path w ≡ err e
      → is_not_exist e ≡ true
      → size_of w path ≡ none
  pub rename_moves :
      (a b : String) (w : W) (q : String)
      → (os.rename a b w).0 ≡ none
      → size_of (os.rename a b w).1 q
        ≡ (if q == b then size_of w a else if q == a then none else size_of w q)
  pub open_makes :
      (path : String) (w : W) (file : ℕ)
      → (os.open_append path w).0 ≡ ok file
      → size_of (os.open_append path w).1 path
        ≡ (elim (size_of w path) [ none ↦ some 0 | some n ↦ some n ])
  pub close_keeps : (file : ℕ) (w : W) (q : String) → size_of (os.close file w).1 q ≡ size_of w q

backup-ne : (path : String) → path ≢ backup_of path
backup-ne path h = dot-ne (append_cancel_left path "" ".1" (append-nil path ∙ h))
  where
    dot-ne : ¬ (◌≡◌ {A = String} "" ".1")
    dot-ne h = cc

-- a missing log, or one below the limit
abbrev IsSmall : Option ℕ → Type 0
IsSmall none = Unit
IsSmall (some n) = n < max_log_file_bytes

module _ {W : Type 0} (os : LogOs W) (sizes : Sizes os) where
  other-backup : (path : String) → path == backup_of path ≡ false
  other-backup path = elim (Bool-cases (path == backup_of path)) [
    | inl h ↦ absurd (backup-ne path ((eq_iff path (backup_of path)).0 h))
    | inr h ↦ h
  ]

  rotate-small :
      (path : String) (w : W)
      → (rotate os path w).0 ≡ none
      → sizes.size_of (rotate os path w).1 path ≡ none
  unfolding rotate
  rotate-small path w h =
      sizes.rename_moves path (backup_of path) _ path h ∙ rw (other-backup path, eq_refl path) refl

  -- a step that has returned no error has left no log or a small one at the path
  abbrev LeavesSmall : String → Option Error × W → Type 0
  LeavesSmall path r = r.0 ≡ none → IsSmall (sizes.size_of r.1 path)

  if-LeavesSmall :
      (path : String) (b : Bool) (r q : Option Error × W)
      → (b ≡ true → LeavesSmall path r)
      → (b ≡ false → LeavesSmall path q)
      → LeavesSmall path (if b then r else q)
  if-LeavesSmall path true r q h k = h refl
  if-LeavesSmall path false r q h k = k refl

  after_stat-small :
      (path : String) (r : Result ℕ) (w : W)
      → os.stat path w ≡ r
      → LeavesSmall path (after_stat os path r w)
  unfolding after_stat
  after_stat-small path (err e) w found =
      if-LeavesSmall path (is_not_exist e) (none, w) (some e, w)
        (λ missing _. subst IsSmall (sym (sizes.stat_misses path w e found missing)) tt)
        (λ _ h. absurd (cc))
  after_stat-small path (ok size) w found =
      if-LeavesSmall path (ltb size max_log_file_bytes) (none, w) (rotate os path w)
        (λ small _. subst IsSmall (sym (sizes.stat_gives path w size found)) (ground arith))
        (λ _ h. subst IsSmall (sym (rotate-small path w h)) tt)

  -- the size of the file at a path is known and below the limit
  abbrev pub IsBounded : W → String → Type 0
  IsBounded w path = (n : ℕ) × (sizes.size_of w path ≡ some n) × (n < max_log_file_bytes)

  open-IsBounded :
      (path : String) (file : ℕ) (w : W)
      → IsSmall (sizes.size_of w path)
      → (os.open_append path w).0 ≡ ok file
      → IsBounded (os.open_append path w).1 path
  open-IsBounded path file w small h =
      opened (sizes.size_of w path) small (sizes.open_makes path w file h)
    where
      opened :
          (size : Option ℕ)
          → IsSmall size
          → sizes.size_of (os.open_append path w).1 path
            ≡ (elim size [ none ↦ some 0 | some n ↦ some n ])
          → IsBounded (os.open_append path w).1 path
      opened none _ e = (0, e, omega arith)
      opened (some n) small e = (n, e, small)

  close_old-IsBounded :
      (old : Option ℕ) (path : String) (w : W)
      → IsBounded w path
      → IsBounded (close_old os old w) path
  unfolding close_old
  close_old-IsBounded none path w h = h
  close_old-IsBounded (some file) path w (n, e, small) =
      (n, sizes.close_keeps file w path ∙ e, small)

  -- what Init has done for a path: it has failed, or the path is the logger's and its file is
  -- bounded
  abbrev Opens : String → Option Error × Logger W → Type 0
  Opens path (some _, l) = Unit
  Opens path (none, l) = (l.current_path ≡ path) × IsBounded l.world path

  install-Opens :
      (path : String) (opened : Result ℕ) (l : Logger W)
      → ((file : ℕ) → opened ≡ ok file → IsBounded l.world path)
      → Opens path (install os path opened l)
  unfolding install
  install-Opens path (err e) l h = tt
  install-Opens path (ok file) l h =
      (refl, close_old-IsBounded l.current_file path l.world (h file refl))

  after_rotate-Opens :
      (path : String) (failure : Option Error) (l : Logger W)
      → (failure ≡ none → IsSmall (sizes.size_of l.world path))
      → Opens path (after_rotate os path failure l)
  unfolding after_rotate
  after_rotate-Opens path (some e) l h = tt
  after_rotate-Opens path none l h =
      install-Opens path (os.open_append path l.world).0
        (record l { world = (os.open_append path l.world).1 })
        (λ file e. open-IsBounded path file l.world (h refl) e)

  after_mkdir-Opens :
      (base : String) (failure : Option Error) (l : Logger W)
      → Opens (os.join_path base log_file_name) (after_mkdir os base failure l)
  unfolding after_mkdir rotate_if_large
  after_mkdir-Opens base (some e) l = tt
  after_mkdir-Opens base none l =
      let path = os.join_path base log_file_name in
      after_rotate-Opens path (rotate_if_large os path l.world).0
        (record l { world = (rotate_if_large os path l.world).1 })
        (λ e. after_stat-small path (os.stat path l.world) l.world refl e)

  -- Where the calls of package os do to the sizes of the files what Sizes says, and Init succeeds:
  -- the logger's path is `daemon.log` of its directory, and the size of that file is below the
  -- limit of 10 MiB, whatever it was before.
  pub init-bounds :
      (base : String) (l : Logger W)
      → (init os base l).0 ≡ none
      → ((init os base l).1.current_path ≡ os.join_path base log_file_name)
        × IsBounded (init os base l).1.world (init os base l).1.current_path
  unfolding init
  init-bounds base l h =
      let (failure, w) = os.mkdir_all base l.world in
      opened (init os base l) (after_mkdir-Opens base failure (record l { world = w })) h
    where
      opened :
          (r : Option Error × Logger W)
          → Opens (os.join_path base log_file_name) r
          → r.0 ≡ none
          → (r.1.current_path ≡ os.join_path base log_file_name)
            × IsBounded r.1.world r.1.current_path
      opened (some e, t) o e' = absurd (cc)
      opened (none, t) (same, bounded) e' = (same, subst (IsBounded t.world) (sym same) bounded)
