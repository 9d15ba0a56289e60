-- ===== src/Merchant/Episode/History.antt =====
-- Histories of the merchant's episode.
use kaspa_x.Base.{ℕ, Option, List, [], ◌∷◌}
use kaspa_x.Kdapp.Episode.{PayloadMetadata}
use kaspa_x.Merchant.Storage.{Codecs}
use kaspa_x.Merchant.Invoices.{MerchantCommand, MerchantRollback, ReceiptEpisode}
use kaspa_x.Merchant.Episode.{execute, rollback}

-- A history: commands and rollbacks, in any order.
pub data Op : Type 0 where
  exec : MerchantCommand → Option ℕ → PayloadMetadata → Op
  undo : MerchantRollback → Op

module _ (codecs : Codecs) where
  unfoldable pub history : List Op → ReceiptEpisode → ReceiptEpisode
  unfolding execute rollback
  history [] s = s
  history (exec c auth md ∷ ops) s = history ops (execute codecs c auth md s).0
  history (undo rb ∷ ops) s = history ops (rollback codecs rb s).0
