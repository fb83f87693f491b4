-- ===== src/Link/Reader/Safe.antt =====
-- The receiver never writes outside its message buffer and never hangs in the checksum loop, and
-- what it accepts has a matching checksum.
use dm_matter_zigbee_bridge.Prelude.{
  ℕ, ◌≤◌, ◌<◌, bit_xor, Bool, true, false, List, [], ◌∷◌, ◌≡◌, refl, arith, length, length-set,
  take, ltb, ◌==◌, if◌then◌else◌, Run, Bool-cases, ltb→lt, inl, inr, ==→eq, done, fault, spin,
  ◌>>=◌,
}
use dm_matter_zigbee_bridge.Link.{start_char, esc_char, end_char, SlStatus, ok, no_message}
use dm_matter_zigbee_bridge.Link.Frame.{header_crc}
use dm_matter_zigbee_bridge.Link.Frame.Checksum.{xor_all, calculate_crc-xor_all}
use dm_matter_zigbee_bridge.Link.Reader.{
  RxState, wait_start, wait_crc, wait_data, Rx, accept, rx_end, rx_default, rx_byte, read_message,
}

-- Once the length is in, it is known to fit.
abbrev pub Sized : ℕ → RxState → ℕ → Type 0
Sized max wait_crc len = len ≤ max
Sized max wait_data len = len ≤ max
Sized max _ len = Unit

pub record IsSafe (max : ℕ) (r : Rx) : Type 0 where
  pub room : length r.message ≡ max
  pub sized : Sized max r.state r.len

-- What an accepted message satisfies.
pub record IsChecked (max : ℕ) (r : Rx) : Type 0 where
  pub short : r.len < max
  pub matches : r.crc ≡ xor_all (header_crc r.type r.len) (take r.len r.message)

abbrev Accepted : ℕ → Run Rx → Type 0
Accepted max (done r) = IsSafe max r
Accepted max _ = ⊥

accept-IsSafe :
    (max : ℕ) (s : RxState) (b : ℕ) (r : Rx)
    → length r.message ≡ max
    → Sized max s r.len
    → r.state ≡ s
    → Accepted max (accept max s b r)
unfolding accept
accept-IsSafe max wait_start b r h k e = ground arith
accept-IsSafe max wait_data b r h k e = ground (arith, length-set r.message r.count b)
accept-IsSafe max _ b r h k e = ground arith

abbrev Stepped : ℕ → Run (Bool × Rx) → Type 0
Stepped max (done (true, r)) = IsSafe max r × IsChecked max r
Stepped max (done (false, r)) = IsSafe max r
Stepped max _ = ⊥

verdict :
    (max : ℕ) (c : Bool) (r : Rx)
    → IsSafe max r
    → (c ≡ true → IsChecked max r)
    → Stepped max (done (c, r))
verdict max true r h k = (h, k refl)
verdict max false r h k = h

rx_end-Stepped :
    (max : ℕ) (r : Rx)
    → max ≤ 256
    → length r.message ≡ max
    → r.state ≡ wait_start
    → Stepped max (rx_end max r)
unfolding rx_end
rx_end-Stepped max r le h e = elim (Bool-cases (ltb r.len max)) [
  | inr long ↦ rw long (record { room = h; sized = rw e tt })
  | inl short ↦
      let lt : r.len < max = ltb→lt r.len max short in
      let sum = calculate_crc-xor_all r.type r.len r.message (omega arith) (omega arith) in
      let good = xor_all (header_crc r.type r.len) (take r.len r.message) in
      rw (short, sum)
        (verdict max (r.crc == good) r (record { room = h; sized = rw e tt })
          (λ c. record { short = lt; matches = ==→eq r.crc good c }))
]

more : (max : ℕ) (x : Run Rx) → Accepted max x → Stepped max (x >>= λ r'. done (false, r'))
more max (done r) h = h
more max fault h = absurd h
more max spin h = absurd h

rx_default-Stepped : (max b : ℕ) (r : Rx) → IsSafe max r → Stepped max (rx_default max b r)
unfolding rx_default
rx_default-Stepped max b r h = more max _ (
    accept-IsSafe max r.state (if r.in_esc then bit_xor b 0x10 else b) (record r { in_esc = false })
      h.room h.sized refl)

rx_byte-Stepped : (max b : ℕ) (r : Rx) → max ≤ 256 → IsSafe max r → Stepped max (rx_byte max b r)
unfolding rx_byte
rx_byte-Stepped max b r le h = elim (Bool-cases (b == start_char)) [
  | inl e ↦ rw e (record { room = h.room; sized = tt })
  | inr n ↦ rw n (elim (Bool-cases (b == esc_char)) [
    | inl e ↦ rw e (record { room = h.room; sized = h.sized })
    | inr n' ↦ rw n' (elim (Bool-cases (b == end_char)) [
      | inl e ↦ rw e (rx_end-Stepped max (record r { state = wait_start }) le h.room refl)
      | inr n'' ↦ rw n'' (rx_default-Stepped max b r h)
    ])
  ])
]

-- What a call of `eSL_ReadMessage` can come to.
abbrev pub Outcome : ℕ → SlStatus × Rx × List ℕ → Type 0
Outcome max (ok, r, rest) = IsSafe max r × IsChecked max r
Outcome max (no_message, r, rest) = IsSafe max r × (rest ≡ [])
Outcome max (_, r, rest) = ⊥

abbrev Finished : ℕ → List ℕ → Run (Bool × Rx) → Type 0
Finished max bytes p =
    (out : SlStatus × Rx × List ℕ) × ((p >>= λ q. elim q.0 [
      | true ↦ done (ok, q.1, bytes)
      | false ↦ read_message max q.1 bytes
    ])
      ≡ done out)
    × Outcome max out

-- eSL_ReadMessage from a safe state, on any bytes: it never writes outside the message buffer and
-- always comes to an end. It returns E_SL_OK only with a length below the limit and a checksum
-- that matches the header and the message, and E_SL_NOMESSAGE only when all bytes are read. The
-- state that it leaves is safe again.
pub read_message-Outcome :
    (max : ℕ) (bytes : List ℕ) (r : Rx)
    → max ≤ 256
    → IsSafe max r
    → (out : SlStatus × Rx × List ℕ) × (read_message max r bytes ≡ done out) × Outcome max out
unfolding read_message
read_message-Outcome max [] r le h = ((no_message, r, []), refl, (h, refl))
read_message-Outcome max (b ∷ bytes) r le h =
    go (rx_byte max b r) (rx_byte-Stepped max b r le h) (λ q. read_message-Outcome max bytes q le)
  where
    go :
        (p : Run (Bool × Rx))
        → Stepped max p
        → ((q : Rx)
            → IsSafe max q
            → (out : SlStatus × Rx × List ℕ) × (read_message max q bytes ≡ done out)
              × Outcome max out)
        → Finished max bytes p
    go (done (true, q)) st ih = ((ok, q, bytes), refl, st)
    go (done (false, q)) st ih = ih q st
    go fault st ih = absurd st
    go spin st ih = absurd st
