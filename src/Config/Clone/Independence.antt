-- ===== src/Config/Clone/Independence.antt =====
-- That the Clone methods of internal/config/config.go are deep.
use unifi_6in.Prelude.{ℕ, ◌≤◌, ◌<◌, ◌≡◌, refl, ◌∙◌}
use unifi_6in.Heap.{Heap}
use unifi_6in.Config.Clone.{
  ConfigRef, DocumentRef, Cell, config_view, document_view, clone_lan, clone_config, clone_document,
}
use unifi_6in.Config.Clone.Copying.{
  LanReaches, DocumentReaches, Between, Below, lan-same, document-same, clone_lan-lem,
  clone_document-lem,
}

-- Clone of a document, whose arrays are on the heap: the clone has the contents of the document,
-- also after any writes to the arrays that were there before the clone; and the document has its
-- contents still, also after any writes to the arrays that the clone has made, or later ones.
pub clone_document-IsDeep :
    (d : DocumentRef) (h : Heap Cell)
    → DocumentReaches (Below h) h.cell d
    → ((cell : ℕ → Cell)
        → ((a : ℕ) → h.next ≤ a → cell a ≡ (clone_document d h).1.cell a)
        → document_view cell (clone_document d h).0 ≡ document_view h.cell d)
      × ((cell : ℕ → Cell)
          → ((a : ℕ) → a < h.next → cell a ≡ (clone_document d h).1.cell a)
          → document_view cell d ≡ document_view h.cell d)
clone_document-IsDeep d h reached =
    let (grown, fresh, same) = clone_document-lem d h reached in
    let (c, h') = clone_document d h in
    (
      λ cell agree.
          document-same (Between h.next h'.next) h'.cell cell (λ a between. agree a between.0) c
            fresh
          ∙ same,
      λ cell agree.
          document-same (Below h) h.cell cell (λ a low. agree a low ∙ grown.keeps a low) d reached,
    )

-- Clone of a configuration likewise.
pub clone_config-IsDeep :
    (c : ConfigRef) (h : Heap Cell)
    → LanReaches (Below h) c.lan
    → ((cell : ℕ → Cell)
        → ((a : ℕ) → h.next ≤ a → cell a ≡ (clone_config c h).1.cell a)
        → config_view cell (clone_config c h).0 ≡ config_view h.cell c)
      × ((cell : ℕ → Cell)
          → ((a : ℕ) → a < h.next → cell a ≡ (clone_config c h).1.cell a)
          → config_view cell c ≡ config_view h.cell c)
unfolding clone_config
clone_config-IsDeep c h reached =
    let (grown, fresh, same) = clone_lan-lem c.lan h reached in
    let (lan, h') = clone_lan c.lan h in
    (
      λ cell agree.
          rw
            (
              lan-same (Between h.next h'.next) h'.cell cell (λ a between. agree a between.0) lan
                  fresh,
              same,
            )
            refl,
      λ cell agree.
          rw
            (lan-same (Below h) h.cell cell (λ a low. agree a low ∙ grown.keeps a low) c.lan
              reached)
            refl,
    )
