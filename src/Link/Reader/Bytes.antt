-- ===== src/Link/Reader/Bytes.antt =====
-- What the bytes of a frame do to the receiver, one after the other.
use dm_matter_zigbee_bridge.Prelude.{
  ℕ, suc, ◌+◌, ◌*◌, ◌%◌, ◌≤◌, ◌<◌, bit_xor, Bool, true, false, List, [], ◌∷◌, ◌++◌, ◌≡◌, refl, ◌∙◌,
  arith, append_assoc, append-nil, length, length-set, take, take-set, set, ltb, lt→ltb, le→ltb,
  eq→==, if◌then◌else◌, Bool-cases, inl, inr, ltb→lt, Run, done, fault, spin, ◌>>=◌,
}
use dm_matter_zigbee_bridge.Prelude.Bits.{bit_xor_sixteen}
use dm_matter_zigbee_bridge.Link.{start_char, esc_char, end_char, SlStatus, ok}
use dm_matter_zigbee_bridge.Link.Frame.{low_byte, high_byte, calculate_crc}
use dm_matter_zigbee_bridge.Link.Frame.Layout.{escaped, escaped_all, header}
use dm_matter_zigbee_bridge.Link.Reader.{
  RxState, wait_start, wait_type_msb, wait_type_lsb, wait_len_msb, wait_len_lsb, wait_crc,
  wait_data, Rx, accept, rx_end, rx_default, rx_byte, read_message,
}

-- The receiver goes on with the rest of the bytes.
abbrev go_on : ℕ → List ℕ → Run Rx → Run (SlStatus × Rx × List ℕ)
go_on max rest p = p >>= λ r. read_message max r rest

unescaped : (r : Rx) → r.in_esc ≡ false → record r { in_esc = false } ≡ r
unescaped r e = ground arith

bind_more :
    (max : ℕ) (rest : List ℕ) (p : Run Rx)
    → ◌>>=◌ {A = Bool × Rx}
        (p >>= λ r'. done (false, r'))
        (λ q. elim q.0 [ true ↦ done (ok, q.1, rest) | false ↦ read_message max q.1 rest ])
      ≡ go_on max rest p
bind_more max rest (done r) = refl
bind_more max rest fault = refl
bind_more max rest spin = refl

-- A byte from 16 on is none of the three special characters.
rx_byte-default : (max b : ℕ) (r : Rx) → 16 ≤ b → rx_byte max b r ≡ rx_default max b r
unfolding rx_byte
rx_byte-default max b r h = ground arith

read_message-default :
    (max b : ℕ) (r : Rx) (rest : List ℕ)
    → 16 ≤ b
    → read_message max r (b ∷ rest)
      ≡ go_on max rest
          (accept max r.state (if r.in_esc then bit_xor b 16 else b) (record r { in_esc = false }))
unfolding read_message rx_default
read_message-default max b r rest h = rw (rx_byte-default max b r h) (bind_more max rest _)

read_message-esc :
    (max : ℕ) (r : Rx) (rest : List ℕ)
    → read_message max r (esc_char ∷ rest) ≡ read_message max (record r { in_esc = true }) rest
unfolding read_message rx_byte
read_message-esc max r rest = refl

-- One byte on the wire, escaped or not, is one byte for the state machine.
read_message-escaped :
    (max b : ℕ) (r : Rx) (rest : List ℕ)
    → r.in_esc ≡ false
    → read_message max r (escaped b ++ rest) ≡ go_on max rest (accept max r.state b r)
unfolding escaped
read_message-escaped max b r rest e = elim (Bool-cases (ltb b 16)) [
  | inl low ↦
      let (there, back) = bit_xor_sixteen b (ltb→lt b 16 low) in
      rw (low, there)
        (read_message-esc max r ((b + 16) ∷ rest)
          ∙ read_message-default max (b + 16) (record r { in_esc = true }) rest (omega arith)
          ∙ rw (back, unescaped r e))
  | inr high ↦ rw high (read_message-default max b r rest (ground arith) ∙ rw (e, unescaped r e))
]

-- The payload's bytes, stored one behind the other.
pub stored : List ℕ → Rx → Rx
stored [] r = r
stored (x ∷ xs) r = stored xs (record r { message = set r.message r.count x; count = r.count + 1 })

accept-data :
    (max x : ℕ) (s : RxState) (r : Rx)
    → s ≡ wait_data
    → r.count < r.len
    → r.len ≤ length r.message
    → r.len < 65536
    → accept max s x r ≡ done (record r { message = set r.message r.count x; count = r.count + 1 })
unfolding accept
accept-data max x s r e c l w = rw e (ground arith)

pub read_message-payload :
    (max : ℕ) (xs : List ℕ) (r : Rx) (rest : List ℕ)
    → r.in_esc ≡ false
    → r.state ≡ wait_data
    → r.count + length xs ≤ r.len
    → r.len ≤ length r.message
    → r.len < 65536
    → read_message max r (escaped_all xs ++ rest) ≡ read_message max (stored xs r) rest
unfolding stored escaped_all
read_message-payload max [] r rest e s c l w = refl
read_message-payload max (x ∷ xs) r rest e s c l w =
    let r' : Rx = record r { message = set r.message r.count x; count = r.count + 1 } in
    let fits = length-set r.message r.count x in
    let ih = read_message-payload max xs r' rest e s (omega arith) (omega arith) w in
    rw append_assoc (
      read_message-escaped max x r (escaped_all xs ++ rest) e
      ∙ rw (accept-data max x r.state r s (omega arith) l w) ih)

pub record Stored (xs : List ℕ) (r q : Rx) : Type 0 where
  pub same_state : q.state ≡ r.state
  pub same_crc : q.crc ≡ r.crc
  pub same_type : q.type ≡ r.type
  pub same_len : q.len ≡ r.len
  pub same_room : length q.message ≡ length r.message
  pub content : take (r.count + length xs) q.message ≡ take r.count r.message ++ xs

pub stored-Stored :
    (xs : List ℕ) (r : Rx) → r.count + length xs ≤ length r.message → Stored xs r (stored xs r)
unfolding stored
stored-Stored [] r h = record {
  same_state = refl;
  same_crc = refl;
  same_type = refl;
  same_len = refl;
  same_room = refl;
  content = let z : r.count + 0 ≡ r.count = omega arith in rw (z, append-nil);
}
stored-Stored (x ∷ xs) r h =
    let r' : Rx = record r { message = set r.message r.count x; count = r.count + 1 } in
    let fits = length-set r.message r.count x in
    let ih = stored-Stored xs r' (omega arith) in
    record {
      same_state = ih.same_state;
      same_crc = ih.same_crc;
      same_type = ih.same_type;
      same_len = ih.same_len;
      same_room = ih.same_room ∙ fits;
      content =
          let shift : r.count + suc (length xs) ≡ r.count + 1 + length xs = omega arith in
          let next : r.count + 1 ≡ suc r.count = omega arith in
          let written = take-set r.count r.message x (omega arith) in
          rw shift (ih.content ∙ rw (next, written, append_assoc));
    }

-- The receiver after START, type, length and checksum.
abbrev pub headed : Rx → ℕ → ℕ → ℕ → Rx
headed r type len crc = record r {
  state = wait_data;
  crc = crc;
  count = 0;
  in_esc = false;
  type = type;
  len = len;
}

read_message-start :
    (max : ℕ) (r : Rx) (rest : List ℕ)
    → read_message max r (start_char ∷ rest)
      ≡ read_message max (record r { count = 0; in_esc = false; state = wait_type_msb }) rest
unfolding read_message rx_byte
read_message-start max r rest = refl

sixteen_bits : (x : ℕ) → x < 65536 → (high_byte x * 256 % 65536 + low_byte x) % 65536 ≡ x
sixteen_bits x h = omega arith

pub read_message-header :
    (max type len crc : ℕ) (r : Rx) (rest : List ℕ)
    → type < 65536
    → len < 65536
    → len ≤ max
    → read_message max r (start_char ∷ (escaped_all (header type len crc) ++ rest))
      ≡ read_message max (headed r type len crc) rest
unfolding escaped_all accept
read_message-header max type len crc r rest ht hl le =
    let r1 : Rx = record r { count = 0; in_esc = false; state = wait_type_msb } in
    let r2 : Rx = record r1 { type = high_byte type * 256 % 65536; state = wait_type_lsb } in
    let r3 : Rx = record r1 { type = type; state = wait_len_msb } in
    let r4 : Rx = record r3 { len = high_byte len * 256 % 65536; state = wait_len_lsb } in
    let r5 : Rx = record r3 { len = len; state = wait_crc } in
    read_message-start max r _
    ∙ simp append_assoc (
        read_message-escaped max (high_byte type) r1 _ refl
        ∙ read_message-escaped max (low_byte type) r2 _ refl
        ∙ rw (sixteen_bits type ht) (
            read_message-escaped max (high_byte len) r3 _ refl
            ∙ read_message-escaped max (low_byte len) r4 _ refl
            ∙ rw (sixteen_bits len hl, le→ltb max len le) (read_message-escaped max crc r5 _ refl)))

pub read_message-end :
    (max : ℕ) (q : Rx) (rest : List ℕ)
    → q.len < max
    → calculate_crc q.type q.len q.message ≡ done q.crc
    → read_message max q (end_char ∷ rest) ≡ done (ok, record q { state = wait_start }, rest)
unfolding read_message rx_byte rx_end
read_message-end max q rest lt e = rw (lt→ltb q.len max lt, e, eq→== q.crc q.crc refl)
