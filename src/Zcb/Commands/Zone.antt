-- ===== src/Zcb/Commands/Zone.antt =====
-- What the control bridge reads as the zone identifier of an enrolment.
use dm_matter_zigbee_bridge.Prelude.{ℕ, ◌*◌, ◌<◌, ◌≡◌, refl, List, [], ◌∷◌, some, arith, append-nil}
use dm_matter_zigbee_bridge.Prelude.Words.{ntohs-byte}
use dm_matter_zigbee_bridge.Zcb.{sends}
use dm_matter_zigbee_bridge.Zcb.Fields.{
  Field, word, number, encode, decode, decode-encode, u8, u16, raw16,
}
use dm_matter_zigbee_bridge.Zcb.Commands.{ias_zone_enroll_response}

-- eIASZoneEnrollResponse, with arguments that fit their types, does not swap the 16-bit zone
-- identifier: the control bridge, which reads every other argument as it was given, reads 256
-- times the identifier.
pub ias_zone_enroll_response-zone :
    (addr_mode addr src_ep dst_ep code zone_id : ℕ)
    → addr_mode < 256
    → addr < 65536
    → src_ep < 256
    → dst_ep < 256
    → code < 256
    → zone_id < 256
    → (fields : List Field) × (ias_zone_enroll_response addr_mode addr src_ep dst_ep code zone_id
        ≡ sends 0x0400 fields)
      × (decode (word 1 ∷ word 2 ∷ word 1 ∷ word 1 ∷ word 1 ∷ word 2 ∷ []) (encode fields)
          ≡ some (
            number addr_mode
                ∷ number addr
                ∷ number src_ep
                ∷ number dst_ep
                ∷ number code
                ∷ number (256 * zone_id)
                ∷ [],
            [],
          ))
unfolding ias_zone_enroll_response
ias_zone_enroll_response-zone addr_mode addr src_ep dst_ep code zone_id ha hd hs ht hc hz =
    let fields : List Field =
      u8 addr_mode ∷ u16 addr ∷ u8 src_ep ∷ u8 dst_ep ∷ u8 code ∷ raw16 zone_id ∷ [] in
    let read = decode-encode fields [] (ha, (omega arith, (hs, (ht, (hc, (omega arith, tt)))))) in
    (fields, refl, rw (ntohs-byte zone_id hz) at (rw append-nil at read))
