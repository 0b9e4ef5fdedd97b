-- ===== src/Api/Logs.antt =====
-- What `GET /api/logs` of internal/api/handler.go answers over the logger of internal/logging.
use unifi_6in.Prelude.{
  Bool, true, false, ℕ, ◌≤◌, ◌-◌, ◌≡◌, refl, ◌⊎◌, inl, inr, none, some, List, [], length,
  length-drop, ltb, Bool-cases, if◌then◌else◌, arith, Option-cases, ◌==◌, ◌||◌, nat_eq, String,
}
use mathlib.Core.Path.{subst}
use unifi_6in.Errors.{Error, Result, ok, err, is_not_exist, ◌>>=◌}
use unifi_6in.Net.{NetIp}
use unifi_6in.Config.Raw.{Json}
use unifi_6in.Logging.Lines.{Bytes, last_lines, split_lines}
use unifi_6in.Logging.Tail.{tail_bytes, read_back}
use unifi_6in.Logging.Logger.{LogOs, Logger, tail_file, tail}
use unifi_6in.Api.Http.{Request}
use unifi_6in.Api.Limit.{tail_limit, tail_limit-InRange, max_log_tail_lines, InRange}
use unifi_6in.Api.Handler.{Controller, answer_lines, answer_logs, handle_get_logs}
use unifi_6in.Api.Daemon.{Daemon, log_of}
use unifi_6in.Prelude.Order.{lt_wf}

length-last_lines : (n : ℕ) (ls : List Bytes) → length (last_lines n ls) ≤ n
unfolding last_lines
length-last_lines n ls = elim (Bool-cases (ltb n (length ls))) [
  | inl more ↦ rw (more, length-drop (length ls - n) ls) (ground arith)
  | inr few ↦ rw few (ground arith)
]

-- at most `n` lines, where there are lines
abbrev pub AtMost : ℕ → Result (List Bytes) → Type 0
AtMost n (ok lines) = length lines ≤ n
AtMost n (err _) = Unit

last-AtMost :
    (n : ℕ) (r : Result Bytes) → AtMost n (r >>= (λ buffer. ok (last_lines n (split_lines buffer))))
last-AtMost n (ok buffer) = length-last_lines n (split_lines buffer)
last-AtMost n (err e) = tt

tail_bytes-AtMost : (read : ℕ → ℕ → Result Bytes) (n size : ℕ) → AtMost n (tail_bytes read n size)
unfolding tail_bytes
tail_bytes-AtMost read n size = elim (Bool-cases (nat_eq size 0)) [
  | inl empty ↦ rw empty (omega arith)
  | inr full ↦ rw full (last-AtMost n (read_back read n size (lt_wf.apply size) []))
]

tail_file-AtMost :
    {V : Type 0} → (os : LogOs V) (path : String) (n : ℕ) (w : V) → AtMost n (tail_file os path n w)
unfolding tail_file
tail_file-AtMost os path n w = opened (os.open_read path w)
  where
    sized :
        (file : ℕ) (r : Result ℕ) → AtMost n (r >>= (λ size. tail_bytes (os.read_at file w) n size))
    sized file (ok size) = tail_bytes-AtMost (os.read_at file w) n size
    sized file (err e) = tt

    missing : (b : Bool) (e : Error) → AtMost n (if b then ok [] else err e)
    missing true e = omega arith
    missing false e = tt

    opened :
        (r : Result ℕ)
        → AtMost n (elim r [
          | err e ↦ if is_not_exist e then ok [] else err e
          | ok file ↦ os.file_size file w >>= (λ size. tail_bytes (os.read_at file w) n size)
        ])
    opened (err e) = missing (is_not_exist e) e
    opened (ok file) = sized file (os.file_size file w)

tail-AtMost : {V : Type 0} → (os : LogOs V) (n : ℕ) (l : Logger V) → AtMost n (tail os n l)
unfolding tail
tail-AtMost os n l = elim (Bool-cases (l.current_path == "" || nat_eq n 0)) [
  | inl nothing ↦ rw nothing (omega arith)
  | inr some_lines ↦ rw some_lines (tail_file-AtMost os l.current_path n l.world)
]

module _ {D W V : Type 0} (net : NetIp) (codec : Json D) (controller : Controller (Daemon W V))
    (os : LogOs V) where
  -- Whatever the query says: `GET /api/logs` changes nothing, and it refuses the parameter `tail`
  -- with 400, or answers with what Tail gives for a limit from 1 to 2000, which is an error or at
  -- most that many lines.
  pub handle_get_logs-bounds :
      (r : Request D) (d : Daemon W V)
      → ((handle_get_logs net codec controller (log_of W os) r d).1 ≡ d)
        × (((tail_limit r.tail ≡ none)
              × ((handle_get_logs net codec controller (log_of W os) r d).0.code ≡ 400))
            ⊎ ((limit : ℕ) × (tail_limit r.tail ≡ some limit)
                × (1 ≤ limit)
                × (limit ≤ max_log_tail_lines)
                × ((handle_get_logs net codec controller (log_of W os) r d).0
                    ≡ answer_lines d.logger.current_path (tail os limit d.logger))
                × AtMost limit (tail os limit d.logger)))
  unfolding handle_get_logs answer_logs
  handle_get_logs-bounds r d = elim (Option-cases (tail_limit r.tail)) [
    | inl refused ↦ rw refused (refl, inl (refl, refl))
    | inr (limit, asked) ↦
        let (least, most) = subst InRange asked (tail_limit-InRange r.tail) in
        (refl, inr (limit, asked, least, most, rw asked refl, tail-AtMost os limit d.logger))
  ]
