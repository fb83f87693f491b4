-- ===== src/Matter/Attributes.antt =====
-- `emberAfExternalAttributeReadCallback`, by which the Matter SDK reads an attribute of a device, and
-- the functions that it calls for a cluster.
pub mod Fits
use dm_matter_zigbee_bridge.Prelude.{
  ℕ, ◌/◌, ◌%◌, Bool, true, false, ◌&&◌, Option, none, some, List, [], ◌∷◌, get_elem?, ◌==◌,
  if◌then◌else◌,
}

-- What the callback reads of a device; the numbers of 16 bits are the bits of an `int16_t`.
pub record Readable : Type 0 where
  pub reachable : Bool
  pub name : List ℕ
  pub is_on : Bool
  pub measured : ℕ
  pub min : ℕ
  pub max : ℕ

-- `memcpy` of two and of four bytes on a little-endian machine.
abbrev pub two_bytes : ℕ → List ℕ
two_bytes n = n % 256 ∷ n / 256 % 256 ∷ []

abbrev pub four_bytes : ℕ → List ℕ
four_bytes n = n % 256 ∷ n / 256 % 256 ∷ n / 65536 % 256 ∷ n / 16777216 % 256 ∷ []

abbrev pub flag : Bool → ℕ
flag b = if b then 1 else 0

-- The identifiers of attributes, as in bridge-app.matter.
abbrev pub cluster_revision : ℕ
cluster_revision = 0xFFFD

abbrev pub feature_map : ℕ
feature_map = 0xFFFC

abbrev pub is_read : ℕ → ℕ → ℕ → ℕ → Bool
is_read id size attribute max_read = attribute == id && max_read == size

-- The bytes that are written into the buffer, or `none` for Status::Failure. `make_string` is
-- `MakeZclCharString`, with the size of its span.
unfoldable pub handle_read_bridged_device_basic_attribute :
    (ℕ → List ℕ → List ℕ) → Readable → ℕ → ℕ → Option (List ℕ)
handle_read_bridged_device_basic_attribute make_string d attribute max_read =
    if is_read 17 1 attribute max_read
    then some (flag d.reachable ∷ [])
    else if is_read 5 32 attribute max_read
    then some (make_string max_read d.name)
    else if is_read cluster_revision 2 attribute max_read
    then some (two_bytes 1)
    else if is_read feature_map 4 attribute max_read
    then some (four_bytes 0)
    else none

unfoldable pub handle_read_on_off_attribute : Readable → ℕ → ℕ → Option (List ℕ)
handle_read_on_off_attribute d attribute max_read =
    if is_read 0 1 attribute max_read
    then some (flag d.is_on ∷ [])
    else if is_read cluster_revision 2 attribute max_read
    then some (two_bytes 4)
    else none

unfoldable pub handle_read_temp_measurement_attribute : Readable → ℕ → ℕ → Option (List ℕ)
handle_read_temp_measurement_attribute d attribute max_read =
    if is_read 0 2 attribute max_read
    then some (two_bytes d.measured)
    else if is_read 1 2 attribute max_read
    then some (two_bytes d.min)
    else if is_read 2 2 attribute max_read
    then some (two_bytes d.max)
    else if is_read feature_map 4 attribute max_read
    then some (four_bytes 0)
    else if is_read cluster_revision 2 attribute max_read
    then some (two_bytes 1)
    else none

-- By the identifier of the cluster.
unfoldable pub read_cluster : (ℕ → List ℕ → List ℕ) → Readable → ℕ → ℕ → ℕ → Option (List ℕ)
read_cluster make_string d cluster attribute max_read =
    if cluster == 57
    then handle_read_bridged_device_basic_attribute make_string d attribute max_read
    else if cluster == 6
    then handle_read_on_off_attribute d attribute max_read
    else if cluster == 1026
    then handle_read_temp_measurement_attribute d attribute max_read
    else none

-- `index` is what `emberAfGetDynamicIndexFromEndpoint` gives for the endpoint.
unfoldable pub external_attribute_read :
    (ℕ → List ℕ → List ℕ) → List (Option Readable) → ℕ → ℕ → ℕ → ℕ → Option (List ℕ)
external_attribute_read make_string slots index cluster attribute max_read =
    elim (get_elem? slots index) [
      | none ↦ none
      | some none ↦ none
      | some (some d) ↦ read_cluster make_string d cluster attribute max_read
    ]
