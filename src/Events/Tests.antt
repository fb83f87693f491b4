-- ===== src/Events/Tests.antt =====
-- The theorems on events at concrete inputs: a lamp joins.
use dm_matter_zigbee_bridge.Prelude.{
  ℕ, none, Option, List, [], ◌∷◌, ◌≤◌, refl, inl, arith, replicate,
}
use dm_matter_zigbee_bridge.Prelude.Words.{little_endian, ntohs, ntohd}
use dm_matter_zigbee_bridge.Devices.{no_device, no_attribute}
use dm_matter_zigbee_bridge.Devices.Table.{scan_index, scan_ieee, find_by_ieee}
use dm_matter_zigbee_bridge.Devices.Adding.{take_row}
use dm_matter_zigbee_bridge.Nodes.{init_joined, Saved}
use dm_matter_zigbee_bridge.Qualify.{answered}
use dm_matter_zigbee_bridge.Reports.Handle.{half}
use dm_matter_zigbee_bridge.Reports.Descriptor.{cleared}
use dm_matter_zigbee_bridge.Reports.Descriptor.Stored.{kept}
use dm_matter_zigbee_bridge.Events.{Host}
use dm_matter_zigbee_bridge.Events.Addresses.{HostDistinct}
use dm_matter_zigbee_bridge.Events.Addresses.Reached.{announced, Reach, here, next, Reach-Distinct}
use dm_matter_zigbee_bridge.Events.Joins.Endpoints.{
  announced_ieee, IsNew, welcomed, handle_device_announce-asks,
}
use dm_matter_zigbee_bridge.Events.Joins.Whole.{Joining, Joined, joining, joining-Joined}

abbrev idle : Host (Option Saved)
idle = record {
  nodes = record {
    joined = init_joined;
    idx = 0;
    saved = record { total = 0; nodes = init_joined };
    flash = none;
  };
  work = record {
    devices = no_device ∷ no_device ∷ [];
    attributes = replicate 6 no_attribute;
    ep_index = 0;
    own_mac = 0x99;
    replies = answered ∷ answered ∷ [];
    log = [];
  };
  count = 0;
  supported = cleared;
  posted = 0;
}

-- The lamp 0x1234 with the IEEE address 0xA3, its endpoint 1 with the clusters basic and on/off, and
-- its model identifier.
abbrev announcement : List ℕ
announcement = 0x12 ∷ 0x34 ∷ 0 ∷ 0 ∷ 0 ∷ 0 ∷ 0 ∷ 0 ∷ 0 ∷ 0xA3 ∷ 0x8E ∷ []

abbrev endpoints : List ℕ
endpoints = 1 ∷ 0 ∷ 0x12 ∷ 0x34 ∷ 1 ∷ 1 ∷ []

abbrev descriptor : List ℕ
descriptor = 2 ∷ 0 ∷ 0x12 ∷ 0x34 ∷ 12 ∷ 1 ∷ 1 ∷ 4 ∷ 1 ∷ 0 ∷ 0 ∷ 2 ∷ 0 ∷ 0 ∷ 0 ∷ 6 ∷ []

abbrev model : List ℕ
model = 3 ∷ 0x12 ∷ 0x34 ∷ 1 ∷ 0 ∷ 0 ∷ 0 ∷ 5 ∷ 0 ∷ 0x42 ∷ 0 ∷ 1 ∷ 0x41 ∷ []

idle-IsNew : IsNew (half announcement 0) (announced_ieee announcement) 0 idle
unfolding find_by_ieee scan_ieee scan_index ntohd little_endian
idle-IsNew = record { id_valid = refl; ieee_valid = refl; unknown = refl; free = refl }

two_fit : 2 ≤ 15
two_fit = omega arith

lamp-Joining : Joining 0 0 announcement endpoints descriptor model [] idle
unfolding scan_index kept take_row ntohs little_endian
lamp-Joining = record {
  is_new = idle-IsNew;
  short_free = refl;
  replies = refl;
  index_reset = refl;
  endpoints_from = refl;
  one_endpoint = refl;
  ep_valid = refl;
  ep_used = refl;
  descriptor_from = (refl, refl);
  clusters_readable = refl;
  clusters_fit = two_fit;
  has_basic = refl;
  room = (_, refl);
  model_from = (refl, refl, refl, refl);
}

joining-Joined_example : Joined 0 (joining 0 0 announcement endpoints descriptor model [] idle)
joining-Joined_example =
    joining-Joined 0 0 announcement endpoints descriptor model [] idle lamp-Joining

abbrev lamp_asked : Host (Option Saved)
lamp_asked = welcomed (half announcement 0) (announced_ieee announcement) 0 (answered ∷ []) idle

idle-Distinct : HostDistinct idle
idle-Distinct = (inl refl, (inl refl, tt))

lamp-Reach : Reach idle lamp_asked
lamp-Reach =
    next (announced announcement) here
      (handle_device_announce-asks 0 announcement idle (answered ∷ []) idle-IsNew refl)

Reach-Distinct_example : HostDistinct lamp_asked
Reach-Distinct_example = Reach-Distinct idle lamp_asked idle-Distinct lamp-Reach
