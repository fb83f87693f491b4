-- ===== src/Matter/Attributes/Fits.antt =====
-- No read writes behind the buffer.
use dm_matter_zigbee_bridge.Prelude.{
  ℕ, ◌≤◌, Bool, true, false, Bool-cases, ◌&&◌, Option, none, some, List, length, get_elem?, ◌==◌,
  ==→eq, ◌≡◌, inl, inr, arith, if◌then◌else◌,
}
use dm_matter_zigbee_bridge.Matter.Attributes.{
  Readable, is_read, handle_read_bridged_device_basic_attribute, handle_read_on_off_attribute,
  handle_read_temp_measurement_attribute, read_cluster, external_attribute_read,
}

-- Bytes that fit into the buffer, or a failure.
abbrev pub FitsIn : ℕ → Option (List ℕ) → Type 0
FitsIn max_read none = Unit {0}
FitsIn max_read (some bytes) = length bytes ≤ max_read

-- A branch is taken only for its own size.
is_read-size :
    (id size attribute max_read : ℕ) → is_read id size attribute max_read ≡ true → max_read ≡ size
is_read-size id size attribute max_read h =
    both (attribute == id) (max_read == size) (λ e. ==→eq max_read size e) h
  where
    both : (a b : Bool) → (b ≡ true → max_read ≡ size) → (a && b) ≡ true → max_read ≡ size
    both true b f e = f e
    both false b f e = absurd (wrong e)
      where
        wrong : false ≡ true → ⊥
        wrong p = cc

FitsIn-branch :
    (id size attribute max_read : ℕ) (bytes : List ℕ) (rest : Option (List ℕ))
    → (max_read ≡ size → length bytes ≤ max_read)
    → FitsIn max_read rest
    → FitsIn max_read (if is_read id size attribute max_read then some bytes else rest)
FitsIn-branch id size attribute max_read bytes rest h k =
    elim (Bool-cases (is_read id size attribute max_read)) [
      | inl y ↦ rw y (h (is_read-size id size attribute max_read y))
      | inr n ↦ rw n k
    ]

FitsIn-if :
    (max_read : ℕ) (b : Bool) (x y : Option (List ℕ))
    → FitsIn max_read x
    → FitsIn max_read y
    → FitsIn max_read (if b then x else y)
FitsIn-if max_read true x y p q = p
FitsIn-if max_read false x y p q = q

on_off-FitsIn :
    (d : Readable) (attribute max_read : ℕ)
    → FitsIn max_read (handle_read_on_off_attribute d attribute max_read)
unfolding handle_read_on_off_attribute
on_off-FitsIn d attribute max_read =
    FitsIn-branch 0 1 attribute max_read _ _ (λ e. omega arith)
      (FitsIn-branch 0xFFFD 2 attribute max_read _ _ (λ e. omega arith) tt)

temp-FitsIn :
    (d : Readable) (attribute max_read : ℕ)
    → FitsIn max_read (handle_read_temp_measurement_attribute d attribute max_read)
unfolding handle_read_temp_measurement_attribute
temp-FitsIn d attribute max_read =
    FitsIn-branch 0 2 attribute max_read _ _ (λ e. omega arith)
      (FitsIn-branch 1 2 attribute max_read _ _ (λ e. omega arith)
        (FitsIn-branch 2 2 attribute max_read _ _ (λ e. omega arith)
          (FitsIn-branch 0xFFFC 4 attribute max_read _ _ (λ e. omega arith)
            (FitsIn-branch 0xFFFD 2 attribute max_read _ _ (λ e. omega arith) tt))))

module _ (make_string : ℕ → List ℕ → List ℕ)
    (fits : (size : ℕ) (name : List ℕ) → length (make_string size name) ≤ size) where
  basic-FitsIn :
      (d : Readable) (attribute max_read : ℕ)
      → FitsIn max_read
          (handle_read_bridged_device_basic_attribute make_string d attribute max_read)
  unfolding handle_read_bridged_device_basic_attribute
  basic-FitsIn d attribute max_read =
      FitsIn-branch 17 1 attribute max_read _ _ (λ e. omega arith)
        (FitsIn-branch 5 32 attribute max_read _ _ (λ e. fits max_read d.name)
          (FitsIn-branch 0xFFFD 2 attribute max_read _ _ (λ e. omega arith)
            (FitsIn-branch 0xFFFC 4 attribute max_read _ _ (λ e. omega arith) tt)))

  -- emberAfExternalAttributeReadCallback writes at most maxReadLength bytes, for every slot,
  -- cluster and attribute, provided that MakeZclCharString stays within the span that it is
  -- given.
  pub external_attribute_read-FitsIn :
      (slots : List (Option Readable)) (index cluster attribute max_read : ℕ)
      → FitsIn max_read (external_attribute_read make_string slots index cluster attribute max_read)
  unfolding external_attribute_read read_cluster
  external_attribute_read-FitsIn slots index cluster attribute max_read =
      from (get_elem? slots index)
    where
      from :
          (o : Option (Option Readable))
          → FitsIn max_read (elim o as (λ x. Option (List ℕ)) [
            | none ↦ none
            | some none ↦ none
            | some (some d) ↦ read_cluster make_string d cluster attribute max_read
          ])
      from none = tt
      from (some none) = tt
      from (some (some d)) =
          FitsIn-if max_read (cluster == 57) _ _ (basic-FitsIn d attribute max_read) (
            FitsIn-if max_read (cluster == 6) _ _ (on_off-FitsIn d attribute max_read)
              (FitsIn-if max_read (cluster == 1026) _ _ (temp-FitsIn d attribute max_read) tt))
