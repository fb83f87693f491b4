-- ===== src/Zcb/Requests/Steps.antt =====
-- The requests of two steps.
use dm_matter_zigbee_bridge.Prelude.{
  ℕ, Bool, true, false, ◌&&◌, ◌≡◌, inl, inr, Bool-cases, List, [], ◌==◌, if◌then◌else◌, done,
}
use dm_matter_zigbee_bridge.Zcb.{ZcbStatus, ok, comms_failed}
use dm_matter_zigbee_bridge.Zcb.Fields.{encode}
use dm_matter_zigbee_bridge.Zcb.Requests.{
  LinkOps, bind_fields, send_bind_unbind, erase_persistent_data, get_coordinator_version, and_then,
  waited,
}

abbrev pub both_ok : ℕ → ℕ → ZcbStatus
both_ok a b = if a == 0 && b == 0 then ok else comms_failed

and_then-waited : (a b : ℕ) → and_then (done (waited b)) a ≡ done (both_ok a b)
and_then-waited a b = elim (Bool-cases (a == 0)) [ inl y ↦ rw y | inr y ↦ rw y ]

send_bind_unbind-status :
    (link : LinkOps) (own_mac target_mac target_ep cluster a : ℕ) (answers : ℕ → ℕ) (bind : Bool)
    → ((type : ℕ) (payload : List ℕ) → link.send type payload ≡ done a)
    → ((type : ℕ) → link.wait type ≡ done (answers type))
    → send_bind_unbind link own_mac target_mac target_ep cluster bind
      ≡ done (both_ok a (answers (if bind then 0x8030 else 0x8031)))
unfolding send_bind_unbind
send_bind_unbind-status link own_mac target_mac target_ep cluster a answers true hs hw =
    let message = encode (bind_fields own_mac target_mac target_ep cluster) in
    rw (hs 0x0030 message, hw 0x8030) (and_then-waited a (answers 0x8030))
send_bind_unbind-status link own_mac target_mac target_ep cluster a answers false hs hw =
    let message = encode (bind_fields own_mac target_mac target_ep cluster) in
    rw (hs 0x0031 message, hw 0x8031) (and_then-waited a (answers 0x8031))

-- The requests of two steps over a link whose operations return: a bind or unbind request, the
-- erasure of persistent data and the request for the version return E_ZCB_OK just when the
-- message was accepted and the second message, of the type that belongs to the first, came in
-- time.
pub two_steps-status :
    (link : LinkOps) (own_mac target_mac target_ep cluster a b : ℕ) (answers : ℕ → ℕ)
    → ((type : ℕ) (payload : List ℕ) → link.send type payload ≡ done a)
    → ((type : ℕ) (payload : List ℕ) → link.send_no_wait type payload ≡ done b)
    → ((type : ℕ) → link.wait type ≡ done (answers type))
    → ((bind : Bool)
        → send_bind_unbind link own_mac target_mac target_ep cluster bind
          ≡ done (both_ok a (answers (if bind then 0x8030 else 0x8031))))
      × (erase_persistent_data link ≡ done (both_ok b (answers 0x8007)))
      × (get_coordinator_version link ≡ done (both_ok a (answers 0x8010)))
unfolding erase_persistent_data get_coordinator_version encode
two_steps-status link own_mac target_mac target_ep cluster a b answers hs hn hw = (
  λ bind. send_bind_unbind-status link own_mac target_mac target_ep cluster a answers bind hs hw,
  rw (hn 0x0012 [], hw 0x8007) (and_then-waited b (answers 0x8007)),
  rw (hs 0x0010 [], hw 0x8010) (and_then-waited a (answers 0x8010)),
)
