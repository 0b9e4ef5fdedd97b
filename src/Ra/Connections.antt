-- ===== src/Ra/Connections.antt =====
-- No connection of internal/ra/advertiser.go is lost: `NewAdvertiser` closes on an error what it
-- has opened, and `Stop` closes what `NewAdvertiser` has opened.
use unifi_6in.Prelude.{
  ℕ, String, ◌≡◌, ◌∙◌, sym, ap, inl, inr, Bool, false, not, ◌&&◌, ◌||◌, List, [], ◌∷◌, ◌++◌, arith,
  nat_eq,
}
use unifi_6in.Errors.{Result, Result-cases, ok, err}
use unifi_6in.Ra.{
  Interface, NetworkEntry, ConnEntry, Advertiser, AdvertiserConfig, RaPlatform, close_conns,
  open_conns, new_advertiser, stop,
}

-- the connection `k` is one of these
unfoldable pub holds : List ConnEntry → ℕ → Bool
holds [] k = false
holds (c ∷ cs) k = nat_eq k c.conn || holds cs k

-- a result gives the connection `k`
abbrev pub gives : Result ℕ → ℕ → Bool
gives (ok conn) k = nat_eq k conn
gives (err _) k = false

-- the connection `k` is one of those of the advertiser, if there is one
abbrev pub keeps_open : Result Advertiser → ℕ → Bool
keeps_open (ok a) k = holds a.conns k
keeps_open (err _) k = false

-- Which connections are open in a world: looking up an interface opens and closes none, listening
-- opens the one that it returns, which was not open before, and closing closes that one.
pub record Handles {W : Type 0} (platform : RaPlatform W) : Type 0 where
  pub is_open : W → ℕ → Bool
  pub after_lookup :
      (name : String) (w : W) (k : ℕ)
      → is_open (platform.interface_by_name name w).1 k ≡ is_open w k
  pub after_listen :
      (iface : Interface) (w : W) (k : ℕ)
      → is_open (platform.listen iface w).1 k ≡ is_open w k || gives (platform.listen iface w).0 k
  pub fresh :
      (iface : Interface) (w : W) (k : ℕ)
      → is_open w k && gives (platform.listen iface w).0 k ≡ false
  pub after_close :
      (conn : ℕ) (w : W) (k : ℕ)
      → is_open (platform.close conn w) k ≡ is_open w k && not (nat_eq k conn)

holds-append :
    (cs : List ConnEntry) (c : ConnEntry) (k : ℕ)
    → holds (cs ++ c ∷ []) k ≡ holds cs k || nat_eq k c.conn
unfolding holds
holds-append [] c k = ground arith
holds-append (d ∷ cs) c k = ground (arith, holds-append cs c k)

module _ {W : Type 0} (platform : RaPlatform W) (handles : Handles platform) where
  open handles use {is_open, after_lookup, after_listen, fresh, after_close}

  -- Closing a list of connections closes those, and no others.
  is_open-close_conns :
      (cs : List ConnEntry) (w : W) (k : ℕ)
      → is_open (close_conns platform cs w) k ≡ is_open w k && not (holds cs k)
  unfolding close_conns holds
  is_open-close_conns [] w k = ground arith
  is_open-close_conns (c ∷ cs) w k =
      ground (arith, is_open-close_conns cs (platform.close c.conn w) k, after_close c.conn w k)

  -- At the connection `k`, where `before` tells whether it was open when NewAdvertiser began:
  -- beside those that were open then, `conns` are open, and none of them was open then.
  abbrev Holds : ℕ → Bool → List ConnEntry → W → Type 0
  Holds k before conns w =
      (is_open w k ≡ before || holds conns k) × (before && holds conns k ≡ false)

  abbrev held : Result (List ConnEntry) → ℕ → Bool
  held (ok conns) k = holds conns k
  held (err _) k = false

  closed-Holds :
      (k : ℕ) (before : Bool) (conns : List ConnEntry) (w : W)
      → Holds k before conns w
      → is_open (close_conns platform conns w) k ≡ before
  closed-Holds k before conns w (now, apart) = ground (arith, is_open-close_conns conns w k)

  grown-Holds :
      (k : ℕ) (before : Bool) (conns : List ConnEntry) (entry : ConnEntry) (w w' : W)
      → Holds k before conns w
      → is_open w' k ≡ is_open w k || nat_eq k entry.conn
      → is_open w k && nat_eq k entry.conn ≡ false
      → Holds k before (conns ++ entry ∷ []) w'
  grown-Holds k before conns entry w w' (now, apart) grows new =
      (ground (arith, holds-append conns entry k), ground (arith, holds-append conns entry k))

  open_conns-Holds :
      (nws : List NetworkEntry) (conns : List ConnEntry) (w : W) (k : ℕ) (before : Bool)
      → Holds k before conns w
      → let (result, w') = open_conns platform nws conns w in
        (is_open w' k ≡ before || held result k) × (before && held result k ≡ false)
  unfolding open_conns
  open_conns-Holds [] conns w k before h = h
  open_conns-Holds (nw ∷ nws) conns w k before h =
      let (found, w1) = platform.interface_by_name nw.interface w in
      let h1 : Holds k before conns w1 = (after_lookup nw.interface w k ∙ h.0, h.1) in
      elim (Result-cases found) [
        | inr (e, missing) ↦
            rw (missing, open_conns)
              (ground (arith, closed-Holds k before conns w1 h1), ground arith)
        | inl (iface, here) ↦
            let (listening, w2) = platform.listen iface w1 in
            let grows = after_listen iface w1 k in
            let new = fresh iface w1 k in
            elim (Result-cases listening) [
              | inr (e, refused) ↦
                  let same : is_open w2 k ≡ is_open w1 k =
                    grows ∙ ap (λ r. is_open w1 k || gives r k) refused ∙ ground arith in
                  rw (here, refused, open_conns)
                    (
                      ground (arith, closed-Holds k before conns w2 (same ∙ h1.0, h1.1)),
                      ground arith,
                    )
              | inl (conn, listens) ↦
                  let entry : ConnEntry = record {
                    conn = conn;
                    iface = iface;
                    prefix = nw.prefix;
                  } in
                  rw (here, listens, open_conns)
                    (open_conns-Holds nws (conns ++ entry ∷ []) w2 k before (
                      grown-Holds k before conns entry w1 w2 h1
                        (grows ∙ ap (λ r. is_open w1 k || gives r k) listens)
                        (sym (ap (λ r. is_open w1 k && gives r k) listens) ∙ new)))
            ]
      ]

  new_advertiser-Holds :
      (cfg : AdvertiserConfig) (w : W) (k : ℕ)
      → let (started, w') = new_advertiser platform cfg w in
        (is_open w' k ≡ is_open w k || keeps_open started k)
        × (is_open w k && keeps_open started k ≡ false)
  unfolding new_advertiser
  new_advertiser-Holds cfg w k =
      let (now, apart) =
        open_conns-Holds cfg.networks [] w k (is_open w k)
          (unfold holds in (ground arith, ground arith)) in
      elim (Result-cases (open_conns platform cfg.networks [] w).0) [
        | inl (conns, e) ↦
            rw (e, new_advertiser)
              (
                now ∙ ap (λ r. is_open w k || held r k) e,
                sym (ap (λ r. is_open w k && held r k) e) ∙ apart,
              )
        | inr (x, e) ↦
            rw (e, new_advertiser)
              (
                now ∙ ap (λ r. is_open w k || held r k) e,
                sym (ap (λ r. is_open w k && held r k) e) ∙ apart,
              )
      ]

  -- However many of its calls succeed: after NewAdvertiser exactly those connections are open that
  -- were open before and those of the advertiser that it returns, none of which was open before; so
  -- where it returns an error, those from before and no others. And stopping that advertiser brings
  -- back exactly the connections from before.
  pub is_open-new_advertiser :
      (cfg : AdvertiserConfig) (w : W) (k : ℕ)
      → let (started, w') = new_advertiser platform cfg w in
        (is_open w' k ≡ is_open w k || keeps_open started k)
        × (is_open w k && keeps_open started k ≡ false)
        × ((a : Advertiser) → started ≡ ok a → is_open (stop platform a w') k ≡ is_open w k)
  unfolding stop
  is_open-new_advertiser cfg w k =
      let (now, apart) = new_advertiser-Holds cfg w k in
      (
        now,
        apart,
        λ a e. closed-Holds k (is_open w k) a.conns (new_advertiser platform cfg w).1 (
          now ∙ ap (λ r. is_open w k || keeps_open r k) e,
          sym (ap (λ r. is_open w k && keeps_open r k) e) ∙ apart,
        ),
      )
