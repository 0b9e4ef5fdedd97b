-- ===== src/Server/Socket.antt =====
-- What `listenUnixSocket` of cmd/server/main.go leaves open.
use unifi_6in.Prelude.{
  ℕ, ◌+◌, ◌-◌, String, ◌≡◌, refl, Bool, true, false, not, Option, none, some, arith, if◌then◌else◌,
}
use unifi_6in.Errors.{Error, is_not_exist, Result, ok, err}
use unifi_6in.Server.{
  SocketOs, socket_mode, after_chmod, after_listen, listen_at, after_remove, after_make_dir,
  listen_unix_socket,
}

-- what a result adds to the number of listeners
abbrev added : Result ℕ → ℕ
added (ok _) = 1
added (err _) = 0

-- What the calls of packages os and net do to the listeners and to the modes of sockets.
pub record Listeners {W : Type 0} (os : SocketOs W) : Type 0 where
  pub open_count : W → ℕ
  pub mode : W → String → Option ℕ
  pub mkdir_opens : (dir : String) (w : W) → open_count (os.mkdir_all dir w).1 ≡ open_count w
  pub remove_opens : (path : String) (w : W) → open_count (os.remove path w).1 ≡ open_count w
  pub listen_opens :
      (path : String) (w : W) (listener : ℕ)
      → (os.listen path w).0 ≡ ok listener
      → open_count (os.listen path w).1 ≡ open_count w + 1
  pub listen_fails :
      (path : String) (w : W) (e : Error)
      → (os.listen path w).0 ≡ err e
      → open_count (os.listen path w).1 ≡ open_count w
  pub chmod_opens :
      (path : String) (m : ℕ) (w : W) → open_count (os.chmod path m w).1 ≡ open_count w
  pub chmod_sets :
      (path : String) (m : ℕ) (w : W)
      → (os.chmod path m w).0 ≡ none
      → mode (os.chmod path m w).1 path ≡ some m
  pub close_closes : (listener : ℕ) (w : W) → open_count (os.close listener w) ≡ open_count w - 1

module _ {W : Type 0} (os : SocketOs W) (laws : Listeners os) where
  open laws use {open_count, mode}

  -- How a listen on a path has ended: with one listener more, whose socket only its owner can use,
  -- or with an error and as many listeners as before.
  abbrev pub Listens : String → W → Result ℕ × W → Type 0
  Listens path w (ok listener, u) =
      (open_count u ≡ open_count w + 1) × (mode u path ≡ some socket_mode)
  Listens path w (err e, u) = open_count u ≡ open_count w

  Listens-same :
      (path : String) (v w : W) (r : Result ℕ × W)
      → open_count w ≡ open_count v
      → Listens path w r
      → Listens path v r
  Listens-same path v w (ok listener, u) e (count, m) = (omega arith, m)
  Listens-same path v w (err x, u) e count = omega arith

  after_chmod-Listens :
      (path : String) (listener : ℕ) (w u : W) (failure : Option Error)
      → open_count u ≡ open_count w + 1
      → (failure ≡ none → mode u path ≡ some socket_mode)
      → Listens path w (after_chmod os path listener failure u)
  unfolding after_chmod
  after_chmod-Listens path listener w u none count m = (count, m refl)
  after_chmod-Listens path listener w u (some e) count m =
      omega (arith, laws.remove_opens path (os.close listener u), laws.close_closes listener u)

  after_listen-Listens :
      (path : String) (w : W) (listening : Result ℕ)
      → (os.listen path w).0 ≡ listening
      → Listens path w (after_listen os path listening (os.listen path w).1)
  unfolding after_listen
  after_listen-Listens path w (err e) h = laws.listen_fails path w e h
  after_listen-Listens path w (ok listener) h =
      let u = (os.listen path w).1 in
      after_chmod-Listens path listener w (os.chmod path socket_mode u).1
        (os.chmod path socket_mode u).0
        (omega (arith, laws.chmod_opens path socket_mode u, laws.listen_opens path w listener h))
        (laws.chmod_sets path socket_mode u)

  after_remove-Listens :
      (path : String) (w : W) (failure : Option Error)
      → Listens path w (after_remove os path failure w)
  unfolding after_remove
  after_remove-Listens path w none = after_listen-Listens path w _ refl
  after_remove-Listens path w (some e) = by_test (not (is_not_exist e))
    where
      by_test : (b : Bool) → Listens path w (if b then (err e, w) else listen_at os path w)
      by_test true = refl
      by_test false = after_listen-Listens path w _ refl

  after_make_dir-Listens :
      (path : String) (w : W) (failure : Option Error)
      → Listens path w (after_make_dir os path failure w)
  unfolding after_make_dir
  after_make_dir-Listens path w (some e) = refl
  after_make_dir-Listens path w none =
      Listens-same path w (os.remove path w).1 _ (laws.remove_opens path w)
        (after_remove-Listens path (os.remove path w).1 (os.remove path w).0)

  pub listen_unix_socket-Listens :
      (path : String) (w : W) → Listens path w (listen_unix_socket os path w)
  unfolding listen_unix_socket
  listen_unix_socket-Listens path w =
      Listens-same path w (os.mkdir_all (os.dir path) w).1 _ (laws.mkdir_opens (os.dir path) w) (
        after_make_dir-Listens path (os.mkdir_all (os.dir path) w).1
          (os.mkdir_all (os.dir path) w).0)
