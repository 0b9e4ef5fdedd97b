-- ===== src/Logging/Tail.antt =====
-- `tailFile` of internal/logging/logging.go: a file is read from its end in chunks, until there are
-- more newlines than lines are wanted. Package os is the parameter `os`; the reads of one call see
-- one state of the file, which only grows below the size that they start from.
use mathlib.Core.Logic.{dite}
use mathlib.Core.WellFounded.{Acc}
use native.Mathlib.Decide.{dec_lt}
use unifi_6in.Prelude.{ℕ, ◌-◌, ◌<◌, List, [], ◌++◌, ltb, nat_eq, if◌then◌else◌, arith}
use unifi_6in.Prelude.Order.{lt_wf}
use unifi_6in.Errors.{Result, ok, err, ◌>>=◌}
use unifi_6in.Logging.Lines.{Bytes, count_newlines, split_lines, last_lines}

abbrev pub chunk_size : ℕ
chunk_size = 8192

-- the `readSize` of a round
abbrev pub read_size : ℕ → ℕ
read_size offset = if ltb offset chunk_size then offset else chunk_size

pub offset_falls : (offset : ℕ) → 0 < offset → offset - read_size offset < offset
offset_falls offset h = ground arith

-- the rest of a round after file.ReadAt, `next` being the rounds after it
unfoldable pub after_read : ℕ → Bytes → (Bytes → Result Bytes) → Result Bytes → Result Bytes
after_read n buffer next (err e) = err e
after_read n buffer next (ok chunk) =
    if ltb n (count_newlines (chunk ++ buffer))
    then ok (chunk ++ buffer)
    else next (chunk ++ buffer)

-- The loop of tailFile. `read size offset` is file.ReadAt; `n` is the number of lines wanted.
unfoldable pub read_back :
    (ℕ → ℕ → Result Bytes) → ℕ → (offset : ℕ) → Acc ◌<◌ offset → Bytes → Result Bytes
unfolding after_read
read_back read n offset (Acc.intro _ smaller) buffer =
    dite (dec_lt 0 offset)
      (λ h.
        let left = offset - read_size offset in
        after_read n buffer
          (λ found. read_back read n left (smaller left (offset_falls offset h)) found)
          (read (read_size offset) left))
      (λ _. ok buffer)

-- tailFile after Stat: of a file of `size` bytes
unfoldable pub tail_bytes : (ℕ → ℕ → Result Bytes) → ℕ → ℕ → Result (List Bytes)
tail_bytes read n size = if nat_eq size 0 then ok [] else do
  buffer ← read_back read n size (lt_wf.apply size) []
  ok (last_lines n (split_lines buffer))
