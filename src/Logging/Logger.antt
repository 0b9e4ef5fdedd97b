-- ===== src/Logging/Logger.antt =====
-- The logger of internal/logging/logging.go: `Init` with `rotateIfLarge`, `Path`, `Close` and
-- `Tail`. Package os is the parameter `os`, over a world `W`. The handler that Init gives to slog
-- is left out.
use unifi_6in.Prelude.{
  ℕ, ◌*◌, ◌||◌, String, Option, none, some, List, [], ltb, nat_eq, if◌then◌else◌, ◌==◌,
}
use unifi_6in.Text.{◌<>◌}
use unifi_6in.Errors.{Error, wrapped, is_not_exist, Result, ok, err, ◌>>=◌}
use unifi_6in.Logging.Lines.{Bytes}
use unifi_6in.Logging.Tail.{tail_bytes}

abbrev pub max_log_file_bytes : ℕ
max_log_file_bytes = 10 * 1024 * 1024

abbrev pub log_file_name : String
log_file_name = "daemon.log"

pub record LogOs (W : Type 0) : Type 0 where
  -- filepath.Join
  pub join_path : String → String → String
  -- os.MkdirAll of mode 0755
  pub mkdir_all : String → W → Option Error × W
  -- the size that os.Stat gives
  pub stat : String → W → Result ℕ
  pub remove : String → W → Option Error × W
  pub rename : String → String → W → Option Error × W
  -- os.OpenFile to append, of a file that is made if it is missing
  pub open_append : String → W → Result ℕ × W
  pub close : ℕ → W → Option Error × W
  -- os.Open, the size that file.Stat gives, and file.ReadAt of a size and an offset
  pub open_read : String → W → Result ℕ
  pub file_size : ℕ → W → Result ℕ
  pub read_at : ℕ → W → ℕ → ℕ → Result Bytes

-- The global variables, with the world. The path is empty where there is none.
pub record Logger (W : Type 0) : Type 0 where
  pub current_path : String
  pub current_file : Option ℕ
  pub world : W

abbrev pub backup_of : String → String
backup_of path = path <> ".1"

module _ {W : Type 0} (os : LogOs W) where
  -- the end of rotateIfLarge
  unfoldable pub rotate : String → W → Option Error × W
  rotate path w = os.rename path (backup_of path) (os.remove (backup_of path) w).1

  unfoldable pub after_stat : String → Result ℕ → W → Option Error × W
  unfolding rotate
  after_stat path (err e) w = if is_not_exist e then (none, w) else (some e, w)
  after_stat path (ok size) w = if ltb size max_log_file_bytes then (none, w) else rotate path w

  -- func rotateIfLarge
  unfoldable pub rotate_if_large : String → W → Option Error × W
  rotate_if_large path w = after_stat path (os.stat path w) w

  unfoldable pub close_old : Option ℕ → W → W
  close_old none w = w
  close_old (some file) w = (os.close file w).1

  -- Init after os.OpenFile
  unfoldable pub install : String → Result ℕ → Logger W → Option Error × Logger W
  unfolding close_old
  install path (err e) l = (some (wrapped "open log file: " e ""), l)
  install path (ok file) l = (
    none,
    record {
      current_path = path;
      current_file = some file;
      world = close_old l.current_file l.world;
    },
  )

  -- Init after rotateIfLarge
  unfoldable pub after_rotate : String → Option Error → Logger W → Option Error × Logger W
  after_rotate path (some e) l = (some (wrapped "rotate log: " e ""), l)
  after_rotate path none l =
      let (opened, w) = os.open_append path l.world in install path opened (record l { world = w })

  -- Init after os.MkdirAll
  unfoldable pub after_mkdir : String → Option Error → Logger W → Option Error × Logger W
  after_mkdir base (some e) l = (some (wrapped "create log dir: " e ""), l)
  after_mkdir base none l =
      let path = os.join_path base log_file_name in
      let (failure, w) = rotate_if_large path l.world in
      after_rotate path failure (record l { world = w })

  -- func Init
  unfoldable pub init : String → Logger W → Option Error × Logger W
  init base l =
      let (failure, w) = os.mkdir_all base l.world in
      after_mkdir base failure (record l { world = w })

  -- func Close
  unfoldable pub close : Logger W → Option Error × Logger W
  close l = elim l.current_file [
    | none ↦ (none, l)
    | some file ↦
        let (failure, w) = os.close file l.world in
        (failure, record { current_path = ""; current_file = none; world = w })
  ]

  -- func tailFile
  unfoldable pub tail_file : String → ℕ → W → Result (List Bytes)
  tail_file path n w = elim (os.open_read path w) [
    | err e ↦ if is_not_exist e then ok [] else err e
    | ok file ↦ do size ← os.file_size file w; tail_bytes (os.read_at file w) n size
  ]

  -- func Tail, of a number that is not negative
  unfoldable pub tail : ℕ → Logger W → Result (List Bytes)
  tail n l =
      if l.current_path == "" || nat_eq n 0 then ok [] else tail_file l.current_path n l.world
