-- ===== src/Qualify/Tests.antt =====
-- Theorems of the qualification at concrete inputs, and a run.
use dm_matter_zigbee_bridge.Prelude.{
  ℕ, ◌+◌, some, List, [], ◌∷◌, ◌++◌, All, ◌≡◌, ◌≢◌, refl, arith, replicate, get_elem?, done, spin,
  ◌>>=◌,
}
use dm_matter_zigbee_bridge.Devices.{
  Cluster, Endpoint, Device, no_device, no_endpoint, no_attribute,
}
use dm_matter_zigbee_bridge.Devices.Adding.Counts.{has_in_device, has_in_endpoint, has_cluster}
use dm_matter_zigbee_bridge.Qualify.{unsent, unanswered, answered, Work, active, bind_cluster}
use dm_matter_zigbee_bridge.Qualify.Phases.{Place, places, bind_clusters}
use dm_matter_zigbee_bridge.Qualify.Phases.Plan.{fill_places, requests_for}
use dm_matter_zigbee_bridge.Qualify.Phases.Binds.{Bindable, bind_clusters-active}
use dm_matter_zigbee_bridge.Qualify.Process.{rounds, reset_index, new_device_qualify_process}
use dm_matter_zigbee_bridge.Qualify.Process.Ends.{new_device_qualify_process-ends}
use dm_matter_zigbee_bridge.Qualify.Process.Silent.{given_up_on, new_device_qualify_process-silent}

abbrev cluster : ℕ → Cluster
cluster id = record { id = id; attribute_count = 0 }

-- A light with a colour temperature.
abbrev light_endpoint : Endpoint
light_endpoint = record {
  id = 1;
  device_type = 0x010C;
  cluster_count = 4;
  clusters = cluster 0 ∷ cluster 6 ∷ cluster 8 ∷ cluster 0x0300 ∷ replicate 11 (cluster 0);
}

abbrev light : Device
light = record no_device {
  node_id = 0x1234;
  ieee = 0xA3;
  state = bind_cluster;
  endpoint_count = 1;
  endpoints = light_endpoint ∷ replicate 4 no_endpoint;
}

abbrev work : Work
work = record {
  devices = no_device ∷ light ∷ [];
  attributes = replicate 6 no_attribute;
  ep_index = 1;
  own_mac = 0x99;
  replies = [];
  log = [];
}

abbrev place : ℕ → Place
place c = record { ep = 1; device_type = 0x010C; cluster = c }

abbrev light_places : List Place
light_places = place 0 ∷ place 6 ∷ place 8 ∷ place 0x0300 ∷ []

light-places : places light.endpoint_count light.endpoints ≡ done light_places
unfolding places
light-places = refl

light-Bindable : All (Bindable 0x1234 work) light_places
unfolding has_in_device has_in_endpoint has_cluster
light-Bindable = ((refl, refl), ((refl, refl), ((refl, refl), ((refl, refl), tt))))

bind_clusters-active_example :
    (u : Work) × (e : Device) × (bind_clusters 1 work ≡ done u)
    × (u.log ≡ work.log ++ requests_for work.own_mac light.ieee light_places)
    × (u.attributes ≡ fill_places light.node_id light_places work.attributes)
    × (get_elem? u.devices 1 ≡ some e)
    × (e.state ≡ active)
bind_clusters-active_example =
    bind_clusters-active 1 work light light_places refl light-places light-Bindable

new_device_qualify_process-ends_example :
    (new_device_qualify_process 1 work ≢ spin)
    × (new_device_qualify_process 1 work ≡ (rounds (3 + 2) 1 work >>= reset_index 1))
new_device_qualify_process-ends_example = new_device_qualify_process-ends 3 1 work

-- A device that has just joined, and whose endpoints are therefore blank.
abbrev newcomer : Device
newcomer = record no_device { node_id = 0x1234; ieee = 0xA3; state = 1 }

abbrev arrival : Work
arrival = record work { devices = newcomer ∷ []; ep_index = 0 }

new_device_qualify_process-silent_example :
    new_device_qualify_process 0 (record arrival { replies = unsent ∷ unanswered ∷ answered ∷ [] })
    ≡ done (record (given_up_on 0 newcomer (answered ∷ []) arrival) { ep_index = 1 })
new_device_qualify_process-silent_example =
    new_device_qualify_process-silent 0 arrival newcomer no_endpoint unsent unanswered
      (answered ∷ []) refl refl (omega arith) refl refl tt tt
