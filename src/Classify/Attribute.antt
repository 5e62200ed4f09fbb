-- ===== src/Classify/Attribute.antt =====
-- `attribute`: who is charged for a flow, and with what.
use luci_app_overwatch.Base.{◌+◌, ◌≡◌, ◌↔◌, ◌⊎◌, true, false, ◌&&◌, none, some, arith}
use luci_app_overwatch.Classify.{ClientDelta, LanClassifier, is_lan, attribute}
use luci_app_overwatch.Flow.{Flow}

-- The same connection told from its other end.
abbrev reverse : Flow → Flow
reverse f = record f {
  orig_src = f.orig_dst;
  orig_dst = f.orig_src;
  orig_bytes = f.reply_bytes;
  reply_bytes = f.orig_bytes;
}

module _ (c : LanClassifier) (f : Flow) where
  -- A flow is charged to nobody exactly when neither end is local.
  attribute-none :
      (attribute c f ≡ none) ↔ ((is_lan c f.orig_src ≡ false) × (is_lan c f.orig_dst ≡ false))
  unfolding attribute
  attribute-none = (λ e. ground arith, λ h. ground arith)

  -- Who is charged is the local end, the first one if both are; what it sent counts as upload and
  -- what it was sent as download, so that the bytes of both directions are charged once.
  pub attribute-some :
      (d : ClientDelta)
      → attribute c f ≡ some d
      → (is_lan c d.client ≡ true)
        × (d.rx + d.tx ≡ f.orig_bytes + f.reply_bytes)
        × (d.proto ≡ f.proto)
        × (((d.client ≡ f.orig_src) × (d.tx ≡ f.orig_bytes))
            ⊎ ((is_lan c f.orig_src ≡ false) × (d.client ≡ f.orig_dst) × (d.tx ≡ f.reply_bytes)))
  unfolding attribute
  attribute-some d e = ground arith

  -- Unless both ends are local, it does not matter which end opened the connection.
  attribute-reverse :
      (is_lan c f.orig_src && is_lan c f.orig_dst) ≡ false → attribute c (reverse f) ≡ attribute c f
  unfolding attribute
  attribute-reverse h = ground arith
