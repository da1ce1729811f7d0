-- ===== src/Network/Reader/Counters.antt =====
-- The counters that `sg_get_network_io_stats_int` reads.
use libstatgrab.Base.{ℕ, zero, suc, ◌≡◌, List, [], ◌∷◌, none, some, ◌⊎◌}
use libstatgrab.Base.Bytes.{Bytes}
use libstatgrab.Vector.Append.Listing.{Listing}
use libstatgrab.Network.{NetworkIoStats}
use libstatgrab.Network.Reader.{DevLine}

-- The number in a place, counted from 0, as a specification.
abbrev pub in_place : ℕ → List ℕ → ℕ
in_place n [] = 0
in_place zero (x ∷ xs) = x
in_place (suc n) (x ∷ xs) = in_place n xs

module _ (raw : NetworkIoStats) (now : ℕ) where
  -- An item with the counters of a line and its name, or NULL in place of the name. The receiver
  -- has the columns from 0 on, the sender those from 8 on.
  abbrev pub ShowsLine : NetworkIoStats → DevLine → Type 0
  ShowsLine d l =
      ((d.interface_name ≡ some l.name) ⊎ (d.interface_name ≡ none))
      × (d.rx ≡ in_place 0 l.columns)
      × (d.ipackets ≡ in_place 1 l.columns)
      × (d.ierrors ≡ in_place 2 l.columns)
      × (d.tx ≡ in_place 8 l.columns)
      × (d.opackets ≡ in_place 9 l.columns)
      × (d.oerrors ≡ in_place 10 l.columns)
      × (d.collisions ≡ in_place 13 l.columns)
      × (d.systime ≡ now)
