-- ===== src/Tests/LoggingTests.antt =====
-- The theorems about internal/logging applied to a short log and to a table of file sizes.
use unifi_6in.Prelude.{
  ℕ, ◌≡◌, refl, String, Option, none, some, [], ◌∷◌, take, drop, ◌==◌, if◌then◌else◌, arith,
  eq_refl,
}
use unifi_6in.Text.{◌<>◌}
use unifi_6in.Errors.{Error, not_exist, Result, ok, err}
use unifi_6in.Logging.Lines.{Bytes, last_lines, split_lines, trim_newlines}
use unifi_6in.Logging.Suffix.{EndsInLine}
use unifi_6in.Logging.Tail.{tail_bytes}
use unifi_6in.Logging.Reading.{tail_bytes-last_lines}
use unifi_6in.Logging.Logger.{
  LogOs, Logger, init, after_mkdir, after_rotate, install, rotate_if_large, after_stat,
}
use unifi_6in.Logging.Rotation.{Sizes, IsBounded, init-bounds}

-- three lines, the last one with its newline
abbrev sample_log : Bytes
sample_log = 97 ∷ 10 ∷ 98 ∷ 10 ∷ 99 ∷ 10 ∷ []

sample_log-EndsInLine : EndsInLine sample_log
unfolding trim_newlines
sample_log-EndsInLine = omega arith

tail_bytes-last_lines_example :
    tail_bytes (λ size offset. ok (take size (drop offset sample_log))) 2 6
    ≡ ok ((98 ∷ []) ∷ (99 ∷ []) ∷ [])
unfolding last_lines split_lines
tail_bytes-last_lines_example =
    tail_bytes-last_lines (λ size offset. ok (take size (drop offset sample_log))) sample_log
      (λ _ _ _. refl) 2 (omega arith) sample_log-EndsInLine

-- the sizes of the files
abbrev pub Table : Type 0
Table = String → Option ℕ

abbrev made : Option ℕ → Option ℕ
made none = some 0
made (some n) = some n

abbrev stat_of : Option ℕ → Result ℕ
stat_of none = err (not_exist "no such file")
stat_of (some n) = ok n

abbrev pub sample_log_os : LogOs Table
sample_log_os = record {
  join_path = λ a b. a <> "/" <> b;
  mkdir_all = λ _ w. (none, w);
  stat = λ path w. stat_of (w path);
  remove = λ a w. (none, λ q. if q == a then none else w q);
  rename = λ a b w. (none, λ q. if q == b then w a else if q == a then none else w q);
  open_append = λ path w. (ok 3, λ q. if q == path then made (w path) else w q);
  close = λ _ w. (none, w);
  open_read = λ _ _. ok 4;
  file_size = λ _ _. ok 6;
  read_at = λ _ _ size offset. ok (take size (drop offset sample_log));
}

pub stat-gives : (size : Option ℕ) (n : ℕ) → stat_of size ≡ ok n → size ≡ some n
stat-gives none n e = absurd (cc)
stat-gives (some m) n e = cc

pub stat-misses : (size : Option ℕ) (e : Error) → stat_of size ≡ err e → size ≡ none
stat-misses none e h = refl
stat-misses (some m) e h = absurd (cc)

pub open-makes : (size : Option ℕ) → made size ≡ (elim size [ none ↦ some 0 | some n ↦ some n ])
open-makes none = refl
open-makes (some n) = refl

abbrev pub sample_sizes : Sizes sample_log_os
sample_sizes = record {
  size_of = λ w. w;
  stat_gives = λ path w n e. stat-gives (w path) n e;
  stat_misses = λ path w e h _. stat-misses (w path) e h;
  rename_moves = λ a b w q _. refl;
  open_makes = λ path w file e. rw (eq_refl path) (open-makes (w path));
  close_keeps = λ _ w q. refl;
}

-- a log that is too large, and nothing opened yet
abbrev pub full_logger : Logger Table
full_logger = record {
  current_path = "";
  current_file = none;
  world = λ q. if q == "/data/daemon.log" then some 20_000_000 else none;
}

full_logger_rotates :
    (init sample_log_os "/data" full_logger).1.world "/data/daemon.log.1" ≡ some 20_000_000
unfolding init after_mkdir after_rotate rotate_if_large after_stat install
full_logger_rotates = refl

init-bounds_example :
    ((init sample_log_os "/data" full_logger).1.current_path ≡ "/data/daemon.log")
    × IsBounded sample_log_os sample_sizes
        (init sample_log_os "/data" full_logger).1.world
        (init sample_log_os "/data" full_logger).1.current_path
unfolding init after_mkdir after_rotate rotate_if_large after_stat install
init-bounds_example = init-bounds sample_log_os sample_sizes "/data" full_logger refl
