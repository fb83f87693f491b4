-- ===== src/Devices.antt =====
-- The device table, zigbee_bridge/rt/rw61x/ZCB/ZigbeeDevices.c: its entries and the checks of the
-- addresses. The attributes' values are left out: no function modelled here reads one.
pub mod Table
pub mod Attributes
pub mod Adding
mod Tests
use dm_matter_zigbee_bridge.Prelude.{
  ℕ, Bool, true, false, not, ◌||◌, List, [], replicate, ltb, leb, ◌==◌,
}

abbrev pub max_devices : ℕ
max_devices = 50

abbrev pub max_endpoints : ℕ
max_endpoints = 5

abbrev pub max_clusters : ℕ
max_clusters = 15

-- tsZbDeviceCluster.
pub record Cluster : Type 0 where
  pub id : ℕ
  pub attribute_count : ℕ

-- tsZbDeviceEndPoint.
pub record Endpoint : Type 0 where
  pub id : ℕ
  pub device_type : ℕ
  pub cluster_count : ℕ
  pub clusters : List Cluster

-- tsZbDeviceInfo; `state` is the value of `teZbDeviceState`.
pub record Device : Type 0 where
  pub node_id : ℕ
  pub ieee : ℕ
  pub state : ℕ
  pub since_last : ℕ
  pub endpoint_count : ℕ
  pub endpoints : List Endpoint

-- tsZbDeviceAttribute without its value.
pub record Attribute : Type 0 where
  pub node_id : ℕ
  pub endpoint : ℕ
  pub cluster : ℕ
  pub id : ℕ
  pub kind : ℕ

-- What `memset` to 0 leaves.
abbrev pub no_endpoint : Endpoint
no_endpoint = record {
  id = 0;
  device_type = 0;
  cluster_count = 0;
  clusters = replicate max_clusters (record { id = 0; attribute_count = 0 });
}

abbrev pub no_device : Device
no_device = record {
  node_id = 0;
  ieee = 0;
  state = 0;
  since_last = 0;
  endpoint_count = 0;
  endpoints = replicate max_endpoints no_endpoint;
}

abbrev pub no_attribute : Attribute
no_attribute = record { node_id = 0; endpoint = 0; cluster = 0; id = 0; kind = 0 }

-- The three checks of `bZD_ValidityCheckOf...`.
abbrev pub valid_node_id : ℕ → Bool
valid_node_id id = not (id == 0 || leb 0xFFFB id)

abbrev pub valid_ieee : ℕ → Bool
valid_ieee ieee = not (ieee == 0)

abbrev pub valid_endpoint : ℕ → Bool
valid_endpoint ep = not (ep == 0 || ep == 241 || ltb 242 ep)
