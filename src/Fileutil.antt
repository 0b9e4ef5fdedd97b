-- ===== src/Fileutil.antt =====
-- internal/fileutil/atomic.go: a file is written by way of a temporary file and a rename. Package
-- os is the parameter `fs`, over a world `W`; an open file is known by its name.
pub mod Atomicity
pub mod Storage
use unifi_6in.Prelude.{String, Option, none, some}
use unifi_6in.Errors.{Error, Result, ok, err}

pub record FileSystem (D W : Type 0) : Type 0 where
  -- filepath.Dir
  pub dir : String → String
  -- os.MkdirAll of mode 0755
  pub mkdir_all : String → W → Option Error × W
  -- os.CreateTemp(dir, ".tmp-*"): the name of the open file
  pub create_temp : String → W → Result String × W
  -- f.Write, f.Close
  pub write : String → D → W → Option Error × W
  pub close : String → W → Option Error × W
  -- os.Chmod to 0644, os.Rename, os.Remove
  pub chmod : String → W → Option Error × W
  pub rename : String → String → W → Option Error × W
  pub remove : String → W → Option Error × W
  -- os.ReadFile
  pub read_file : String → W → Result D

module _ {D W : Type 0} (fs : FileSystem D W) where
  -- `if err != nil { os.Remove(tmp); return err }` before the rest
  unfoldable pub or_discard : String → Option Error → (W → Option Error × W) → W → Option Error × W
  or_discard tmp none rest w = rest w
  or_discard tmp (some e) rest w = (some e, (fs.remove tmp w).1)

  unfoldable pub rename_temp : String → String → W → Option Error × W
  rename_temp tmp path w =
      let (failure, w') = fs.rename tmp path w in or_discard tmp failure (λ u. (none, u)) w'

  unfoldable pub chmod_temp : String → String → W → Option Error × W
  chmod_temp tmp path w =
      let (failure, w') = fs.chmod tmp w in or_discard tmp failure (rename_temp tmp path) w'

  unfoldable pub close_temp : String → String → W → Option Error × W
  close_temp tmp path w =
      let (failure, w') = fs.close tmp w in or_discard tmp failure (chmod_temp tmp path) w'

  -- `f.Close(); os.Remove(tmp); return err` after a failed write
  unfoldable pub after_write : String → String → Option Error → W → Option Error × W
  after_write tmp path none w = close_temp tmp path w
  after_write tmp path (some e) w = (some e, (fs.remove tmp (fs.close tmp w).1).1)

  unfoldable pub after_create : String → D → Result String → W → Option Error × W
  after_create path text (err e) w = (some e, w)
  after_create path text (ok tmp) w =
      let (failure, w') = fs.write tmp text w in after_write tmp path failure w'

  unfoldable pub after_mkdir : String → D → Option Error → W → Option Error × W
  after_mkdir path text (some e) w = (some e, w)
  after_mkdir path text none w =
      let (created, w') = fs.create_temp (fs.dir path) w in after_create path text created w'

  -- func WriteAtomically
  unfoldable pub write_atomically : String → D → W → Option Error × W
  write_atomically path text w =
      let (failure, w') = fs.mkdir_all (fs.dir path) w in after_mkdir path text failure w'
