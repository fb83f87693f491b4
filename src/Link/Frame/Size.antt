-- ===== src/Link/Frame/Size.antt =====
-- How long a frame can be.
use dm_matter_zigbee_bridge.Prelude.{
  ℕ, ◌+◌, ◌*◌, ◌≤◌, Bool-cases, inl, inr, List, [], ◌∷◌, ◌++◌, arith, length, length-append, ltb,
}
use dm_matter_zigbee_bridge.Link.{end_char}
use dm_matter_zigbee_bridge.Link.Frame.Layout.{escaped, escaped_all, header, frame}
use dm_matter_zigbee_bridge.Link.Frame.Checksum.{checksum}

length-escaped : (b : ℕ) → length (escaped b) ≤ 2
unfolding escaped
length-escaped b = elim (Bool-cases (ltb b 0x10)) [
  | inl y ↦ rw y (omega arith)
  | inr y ↦ rw y (omega arith)
]

length-escaped_all : (bs : List ℕ) → length (escaped_all bs) ≤ 2 * length bs
unfolding escaped_all
length-escaped_all [] = omega arith
length-escaped_all (b ∷ bs) =
    omega
      (arith, length-append (escaped b) (escaped_all bs), length-escaped b, length-escaped_all bs)

-- Escaping at most doubles the five bytes of the header and the payload.
pub length-frame :
    (type : ℕ) (payload : List ℕ) → length (frame type payload) ≤ 2 * length payload + 12
unfolding frame
length-frame type payload =
    let head = header type (length payload) (checksum type payload) in
    omega (
      arith,
      length-escaped_all head,
      length-escaped_all payload,
      length-append (escaped_all payload) (end_char ∷ []),
      length-append (escaped_all head) (escaped_all payload ++ (end_char ∷ [])),
    )
