-- ===== src/AddressPool/Refinement.antt =====
-- The calls of the pool against what they may do to its view.
use klevret_english_ver.AddressPool.{AddressPool}
use klevret_english_ver.AddressPool.View.{View}
