-- ===== src/Fileutil/Storage.antt =====
-- The files of internal/config and internal/control, which internal/fileutil/atomic.go writes: an
-- atomic write to a path and a read of it are what the storage asks of a file.
use unifi_6in.Prelude.{
  String, ◌≡◌, refl, ◌∙◌, false, Option, none, some, eq_refl, ◌==◌, if◌then◌else◌,
}
use unifi_6in.Errors.{Error, ok}
use unifi_6in.Config.Raw.{Files}
use unifi_6in.Config.Storage.Roundtrip.{Stores}
use unifi_6in.Fileutil.{FileSystem, write_atomically}
use unifi_6in.Fileutil.Atomicity.{IsLawful, Ends, write_atomically-Ends}

-- the file at a path, as SaveDocument, Save and SaveState write it and LoadDocument reads it
abbrev pub file_at : {D W : Type 0} → FileSystem D W → String → Files D W
file_at fs path = record {
  read_file = fs.read_file path;
  write_atomically = write_atomically fs path;
}

module _ {D W : Type 0} (fs : FileSystem D W) (lawful : IsLawful fs) where
  Ends-none :
      (path : String) (text : D) (w : W) (r : Option Error × W)
      → Ends fs lawful path text w r
      → r.0 ≡ none
      → (q : String)
      → lawful.contents r.1 q ≡ (if q == path then some text else lawful.contents w q)
  Ends-none path text w (none, u) h e = h
  Ends-none path text w (some x, u) h e = absurd (cc)

  -- Where the calls of package os do to the files what IsLawful says:
  -- what WriteAtomically has written to a path without an error is what a read of the path gives,
  -- and a read of another file gives what it held before.
  pub file_at-Stores :
      (path : String)
      → Stores (file_at fs path)
        × ((text : D) (w : W) (other : String) (old : D)
            → other == path ≡ false
            → lawful.contents w other ≡ some old
            → (write_atomically fs path text w).0 ≡ none
            → (file_at fs other).read_file (write_atomically fs path text w).1 ≡ ok old)
  file_at-Stores path = (
    λ text w e. lawful.read_finds path _ text (
        Ends-none path text w _ (write_atomically-Ends fs lawful path text w) e path
        ∙ rw (eq_refl path) refl),
    λ text w other old ne held e. lawful.read_finds other _ old (
        Ends-none path text w _ (write_atomically-Ends fs lawful path text w) e other ∙ rw ne held),
  )
