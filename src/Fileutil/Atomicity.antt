-- ===== src/Fileutil/Atomicity.antt =====
-- What `WriteAtomically` of internal/fileutil/atomic.go leaves on the disk, on every path.
use unifi_6in.Prelude.{
  String, ◌≡◌, refl, ◌≢◌, ◌∙◌, sym, ap, Option, none, some, ◌==◌, if◌then◌else◌, arith, eq_iff,
  Bool-cases, inl, inr,
}
use unifi_6in.Errors.{Error, Result, ok, err}
use unifi_6in.Fileutil.{
  FileSystem, or_discard, rename_temp, chmod_temp, close_temp, after_write, after_create,
  after_mkdir, write_atomically,
}

-- What the calls of package os do to the files, each known by its path.
pub record IsLawful {D W : Type 0} (fs : FileSystem D W) : Type 0 where
  pub contents : W → String → Option D
  pub empty : D
  pub mkdir_keeps :
      (dir : String) (w : W) (q : String) → contents (fs.mkdir_all dir w).1 q ≡ contents w q
  pub create_is_new :
      (dir : String) (w : W) (tmp : String)
      → (fs.create_temp dir w).0 ≡ ok tmp
      → contents w tmp ≡ none
  pub create_makes :
      (dir : String) (w : W) (tmp q : String)
      → (fs.create_temp dir w).0 ≡ ok tmp
      → contents (fs.create_temp dir w).1 q ≡ (if q == tmp then some empty else contents w q)
  pub create_fails :
      (dir : String) (w : W) (e : Error) (q : String)
      → (fs.create_temp dir w).0 ≡ err e
      → contents (fs.create_temp dir w).1 q ≡ contents w q
  pub write_keeps :
      (tmp : String) (text : D) (w : W) (q : String)
      → q ≢ tmp
      → contents (fs.write tmp text w).1 q ≡ contents w q
  pub write_stores :
      (tmp : String) (text : D) (w : W)
      → contents w tmp ≡ some empty
      → (fs.write tmp text w).0 ≡ none
      → contents (fs.write tmp text w).1 tmp ≡ some text
  pub close_keeps :
      (tmp : String) (w : W) (q : String) → contents (fs.close tmp w).1 q ≡ contents w q
  pub chmod_keeps :
      (tmp : String) (w : W) (q : String) → contents (fs.chmod tmp w).1 q ≡ contents w q
  pub rename_moves :
      (a b : String) (w : W) (q : String)
      → (fs.rename a b w).0 ≡ none
      → contents (fs.rename a b w).1 q
        ≡ (if q == b then contents w a else if q == a then none else contents w q)
  pub rename_fails :
      (a b : String) (w : W) (e : Error) (q : String)
      → (fs.rename a b w).0 ≡ some e
      → contents (fs.rename a b w).1 q ≡ contents w q
  pub remove_keeps :
      (a : String) (w : W) (q : String) → q ≢ a → contents (fs.remove a w).1 q ≡ contents w q
  pub remove_clears :
      (a : String) (w : W) → (fs.remove a w).0 ≡ none → contents (fs.remove a w).1 a ≡ none
  pub read_finds :
      (path : String) (w : W) (text : D)
      → contents w path ≡ some text
      → fs.read_file path w ≡ ok text

module _ {D W : Type 0} (fs : FileSystem D W) (lawful : IsLawful fs) where
  open lawful use {contents}

  -- All files but a temporary one are those of `w`.
  abbrev Keeps : String → W → W → Type 0
  Keeps tmp w u = (q : String) → q ≢ tmp → contents u q ≡ contents w q

  -- How a write from `w` has ended: with the text at the path and no other change; or with an
  -- error, with every file of before, and no other one if temporary files can be removed.
  abbrev pub Ends : String → D → W → Option Error × W → Type 0
  Ends path text w (none, u) =
      (q : String) → contents u q ≡ (if q == path then some text else contents w q)
  Ends path text w (some e, u) =
      ((q : String) → contents w q ≢ none → contents u q ≡ contents w q)
      × (((a : String) (v : W) → (fs.remove a v).0 ≡ none)
          → (q : String) → contents u q ≡ contents w q)

  module _ (path : String) (text : D) (w : W) (tmp : String) (fresh : contents w tmp ≡ none) where
    discarded-Ends :
        (e : Error) (u : W) → Keeps tmp w u → Ends path text w (some e, (fs.remove tmp u).1)
    discarded-Ends e u h = (old, all)
      where
        others : (q : String) → q ≢ tmp → contents (fs.remove tmp u).1 q ≡ contents w q
        others q ne = lawful.remove_keeps tmp u q ne ∙ h q ne

        old : (q : String) → contents w q ≢ none → contents (fs.remove tmp u).1 q ≡ contents w q
        old q there = others q (λ same. there (rw same fresh))

        all :
            ((a : String) (v : W) → (fs.remove a v).0 ≡ none)
            → (q : String) → contents (fs.remove tmp u).1 q ≡ contents w q
        all removes q = elim (Bool-cases (q == tmp)) [
          | inl same ↦
              let e : q ≡ tmp = (eq_iff q tmp).0 same in
              rw e (lawful.remove_clears tmp u (removes tmp u) ∙ sym fresh)
          | inr other ↦ others q (ground (arith, eq_iff q tmp))
        ]

    or_discard-Ends :
        (failure : Option Error) (rest : W → Option Error × W) (u : W)
        → Keeps tmp w u
        → (failure ≡ none → Ends path text w (rest u))
        → Ends path text w (or_discard fs tmp failure rest u)
    unfolding or_discard
    or_discard-Ends none rest u h next = next refl
    or_discard-Ends (some e) rest u h next = discarded-Ends e u h

    rename_temp-Ends :
        (u : W)
        → Keeps tmp w u
        → contents u tmp ≡ some text
        → Ends path text w (rename_temp fs tmp path u)
    unfolding rename_temp or_discard
    rename_temp-Ends u h stored = ended (fs.rename tmp path u).0 refl
      where
        ended :
            (failure : Option Error)
            → (fs.rename tmp path u).0 ≡ failure
            → Ends path text w (or_discard fs tmp failure (λ v. (none, v)) (fs.rename tmp path u).1)
        ended none e = λ q. lawful.rename_moves tmp path u q e ∙ (elim (Bool-cases (q == tmp)) [
          | inl same ↦
              let p : q ≡ tmp = (eq_iff q tmp).0 same in
              ground (arith, stored, ap (contents w) p ∙ fresh)
          | inr other ↦ ground (arith, stored, h q (ground (arith, eq_iff q tmp)))
        ])
        ended (some x) e =
            discarded-Ends x (fs.rename tmp path u).1
              (λ q ne. lawful.rename_fails tmp path u x q e ∙ h q ne)

    chmod_temp-Ends :
        (u : W)
        → Keeps tmp w u
        → contents u tmp ≡ some text
        → Ends path text w (chmod_temp fs tmp path u)
    unfolding chmod_temp
    chmod_temp-Ends u h stored =
        let kept = λ (q : String). lawful.chmod_keeps tmp u q in
        let h' = λ (q : String) (ne : q ≢ tmp). kept q ∙ h q ne in
        or_discard-Ends _ _ (fs.chmod tmp u).1 h' (λ _. rename_temp-Ends _ h' (kept tmp ∙ stored))

    close_temp-Ends :
        (u : W)
        → Keeps tmp w u
        → contents u tmp ≡ some text
        → Ends path text w (close_temp fs tmp path u)
    unfolding close_temp
    close_temp-Ends u h stored =
        let kept = λ (q : String). lawful.close_keeps tmp u q in
        let h' = λ (q : String) (ne : q ≢ tmp). kept q ∙ h q ne in
        or_discard-Ends _ _ (fs.close tmp u).1 h' (λ _. chmod_temp-Ends _ h' (kept tmp ∙ stored))

    after_write-Ends :
        (failure : Option Error) (u : W)
        → Keeps tmp w u
        → (failure ≡ none → contents u tmp ≡ some text)
        → Ends path text w (after_write fs tmp path failure u)
    unfolding after_write
    after_write-Ends none u h stored = close_temp-Ends u h (stored refl)
    after_write-Ends (some e) u h stored =
        discarded-Ends e (fs.close tmp u).1 (λ q ne. lawful.close_keeps tmp u q ∙ h q ne)

  same-Ends :
      (path : String) (text : D) (w : W) (e : Error) (u : W)
      → ((q : String) → contents u q ≡ contents w q)
      → Ends path text w (some e, u)
  same-Ends path text w e u h = (λ q _. h q, λ _ q. h q)

  Ends-trans :
      (path : String) (text : D) (v w : W) (r : Option Error × W)
      → ((q : String) → contents w q ≡ contents v q)
      → Ends path text w r
      → Ends path text v r
  Ends-trans path text v w (none, u) h k =
      λ q. k q ∙ ap (λ c. if q == path then some text else c) (h q)
  Ends-trans path text v w (some e, u) h (old, all) =
      (λ q there. old q (λ gone. there (sym (h q) ∙ gone)) ∙ h q, λ removes q. all removes q ∙ h q)

  after_create-Ends :
      (path : String) (text : D) (dir : String) (w : W) (created : Result String)
      → (fs.create_temp dir w).0 ≡ created
      → Ends path text w (after_create fs path text created (fs.create_temp dir w).1)
  unfolding after_create
  after_create-Ends path text dir w (err x) e =
      same-Ends path text w x (fs.create_temp dir w).1 (λ q. lawful.create_fails dir w x q e)
  after_create-Ends path text dir w (ok tmp) e =
      let w1 = (fs.create_temp dir w).1 in
      let made = λ (q : String). lawful.create_makes dir w tmp q e in
      let blank : contents w1 tmp ≡ some lawful.empty = made tmp ∙ ground (arith, eq_iff tmp tmp) in
      after_write-Ends path text w tmp (lawful.create_is_new dir w tmp e) (fs.write tmp text w1).0
        (fs.write tmp text w1).1
        (λ q ne. lawful.write_keeps tmp text w1 q ne ∙ made q ∙ ground (arith, eq_iff q tmp))
        (λ written. lawful.write_stores tmp text w1 blank written)

  after_mkdir-Ends :
      (path : String) (text : D) (w : W) (failure : Option Error)
      → Ends path text w (after_mkdir fs path text failure w)
  unfolding after_mkdir
  after_mkdir-Ends path text w (some e) = same-Ends path text w e w (λ q. refl)
  after_mkdir-Ends path text w none = after_create-Ends path text (fs.dir path) w _ refl

  -- Where the calls of package os do to the files what IsLawful says, and however many of them
  -- fail: WriteAtomically either returns nil and has the text at the path and no other file
  -- changed; or it returns an error and every file of before has the contents of before, the one at
  -- the path included, and where temporary files can be removed none is left.
  pub write_atomically-Ends :
      (path : String) (text : D) (w : W) → Ends path text w (write_atomically fs path text w)
  unfolding write_atomically
  write_atomically-Ends path text w =
      let w1 = (fs.mkdir_all (fs.dir path) w).1 in
      Ends-trans path text w w1 _ (lawful.mkdir_keeps (fs.dir path) w)
        (after_mkdir-Ends path text w1 (fs.mkdir_all (fs.dir path) w).0)
