-- ===== src/Binary/NodeId/Laws.antt =====
-- The bytes of NodeIds and QualifiedNames, and what they are read back as.
use open_pub_sub.Base.{
  ℕ, ◌<◌, ◌^◌, ◌%◌, ◌≡◌, refl, Bool-cases, inl, inr, List, [], ◌∷◌, ◌++◌, length, length-append,
  bit_and, bit_or, if◌then◌else◌, arith,
}
use open_pub_sub.Binary.Writer.Writes.{Writes, also-Writes, >>-Writes}
use open_pub_sub.Binary.Reader.Reads.{Reads, Reads-eq, also-Reads, map-Reads, >>=-Reads}
use open_pub_sub.Binary.Scalars.{encode16, encode32}
use open_pub_sub.Binary.Scalars.Laws.{
  byte-Writes, uint16-Writes, uint32-Writes, byte-Reads, uint16-Reads, uint32-Reads,
  length-encode16, length-encode32,
}
use open_pub_sub.Binary.Text.{Text}
use open_pub_sub.Binary.Text.Laws.{
  TextFits, text_encoding, canonical_text, text-Writes, text-Reads, length-text_encoding,
}
use open_pub_sub.Binary.Guid.{Guid, calc_size_guid}
use open_pub_sub.Binary.Guid.Laws.{
  GuidFits, guid_encoding, guid-Writes, guid-Reads, length-guid_encoding,
}
use open_pub_sub.Binary.NodeId.{
  Identifier, numeric, string, guid, byte_string, unknown, NodeId, is_complete, is_four_byte,
  encode_identifier, encode_with_mask, encode_node_id, node_of, decode_identifier, decode_node_id,
  calc_size_identifier, calc_size_node_id,
}

-- The type is one of the four that are named, and the value can be encoded.
pub data IdentifierFits : Identifier → Type 0 where
  numeric_fits : {id : ℕ} → id < 2 ^ 32 → IdentifierFits (numeric id)
  string_fits : {t : Text} → TextFits t → IdentifierFits (string t)
  guid_fits : {g : Guid} → GuidFits g → IdentifierFits (guid g)
  byte_string_fits : {t : Text} → TextFits t → IdentifierFits (byte_string t)

pub record NodeIdFits (n : NodeId) : Type 0 where
  pub namespace_range : n.namespace_index < 2 ^ 16
  pub identifier_fits : IdentifierFits n.identifier

-- The bytes behind the first, whose bits 0 to 5 are the form of the identifier.
abbrev form : ℕ → Identifier → ℕ
form ns (numeric id) = if is_complete id ns then 2 else if is_four_byte id ns then 1 else 0
form ns (string t) = 3
form ns (guid g) = 4
form ns (byte_string t) = 5
form ns unknown = 0

abbrev content : ℕ → Identifier → List ℕ
content ns (numeric id) =
    if is_complete id ns
    then encode16 ns ++ encode32 id
    else if is_four_byte id ns
    then (ns % 2 ^ 8 ∷ []) ++ encode16 (id % 2 ^ 16)
    else id % 2 ^ 8 ∷ []
content ns (string t) = encode16 ns ++ text_encoding t
content ns (guid g) = encode16 ns ++ guid_encoding g
content ns (byte_string t) = encode16 ns ++ text_encoding t
content ns unknown = []

unfoldable pub node_id_encoding : NodeId → List ℕ
node_id_encoding n =
    bit_or 0 (form n.namespace_index n.identifier) ∷ content n.namespace_index n.identifier

abbrev canonical_identifier : Identifier → Identifier
canonical_identifier (numeric id) = numeric id
canonical_identifier (string t) = string (canonical_text t)
canonical_identifier (guid g) = guid g
canonical_identifier (byte_string t) = byte_string (canonical_text t)
canonical_identifier unknown = unknown

-- A NodeId with its text, if it has one, as it comes back.
abbrev pub canonical_node_id : NodeId → NodeId
canonical_node_id n = record n { identifier = canonical_identifier n.identifier }

numeric-Writes :
    (ns id : ℕ)
    → Writes
        (encode_identifier 0 ns (numeric id))
        (bit_or 0 (form ns (numeric id)) ∷ content ns (numeric id))
unfolding encode_identifier
numeric-Writes ns id = elim (Bool-cases (is_complete id ns)) [
  | inl p ↦ rw p (also-Writes (also-Writes (byte-Writes 2) (uint16-Writes ns)) (uint32-Writes id))
  | inr p ↦ elim (Bool-cases (is_four_byte id ns)) [
    | inl q ↦
        rw (p, q)
          (also-Writes (also-Writes (byte-Writes 1) (byte-Writes (ns % 2 ^ 8)))
            (uint16-Writes (id % 2 ^ 16)))
    | inr q ↦ rw (p, q) (also-Writes (byte-Writes 0) (byte-Writes (id % 2 ^ 8)))
  ]
]

identifier-Writes :
    (ns : ℕ) (id : Identifier)
    → IdentifierFits id
    → Writes (encode_identifier 0 ns id) (bit_or 0 (form ns id) ∷ content ns id)
unfolding encode_identifier
identifier-Writes ns (numeric id) (numeric_fits h) = numeric-Writes ns id
identifier-Writes ns unknown f = elim f [ ]
identifier-Writes ns (string t) (string_fits h) =
    >>-Writes (also-Writes (byte-Writes 3) (uint16-Writes ns)) (text-Writes t h)
identifier-Writes ns (guid g) (guid_fits h) =
    also-Writes (also-Writes (byte-Writes 4) (uint16-Writes ns)) (guid-Writes g h)
identifier-Writes ns (byte_string t) (byte_string_fits h) =
    >>-Writes (also-Writes (byte-Writes 5) (uint16-Writes ns)) (text-Writes t h)

pub node_id-Writes : (n : NodeId) → NodeIdFits n → Writes (encode_node_id n) (node_id_encoding n)
unfolding encode_node_id encode_with_mask node_id_encoding
node_id-Writes n f = identifier-Writes n.namespace_index n.identifier f.identifier_fits

numeric_size :
    (ns id : ℕ)
    → length (bit_or 0 (form ns (numeric id)) ∷ content ns (numeric id))
      ≡ calc_size_identifier ns (numeric id)
numeric_size ns id =
    let complete = length-append (encode16 ns) (encode32 id) in
    elim (Bool-cases (is_complete id ns)) [
      | inl p ↦ rw p (omega (arith, complete, length-encode16 ns, length-encode32 id))
      | inr p ↦ elim (Bool-cases (is_four_byte id ns)) [
        | inl q ↦ rw (p, q) (omega (arith, length-encode16 (id % 2 ^ 16)))
        | inr q ↦ rw (p, q) refl
      ]
    ]

identifier_size :
    (ns : ℕ) (id : Identifier)
    → IdentifierFits id
    → length (bit_or 0 (form ns id) ∷ content ns id) ≡ calc_size_identifier ns id
unfolding calc_size_guid
identifier_size ns (numeric id) (numeric_fits h) = numeric_size ns id
identifier_size ns (string t) (string_fits h) = omega (
  arith,
  length-append (encode16 ns) (text_encoding t),
  length-text_encoding t,
  length-encode16 ns,
)
identifier_size ns (guid g) (guid_fits h) = omega (
  arith,
  length-append (encode16 ns) (guid_encoding g),
  length-guid_encoding g h,
  length-encode16 ns,
)
identifier_size ns (byte_string t) (byte_string_fits h) = omega (
  arith,
  length-append (encode16 ns) (text_encoding t),
  length-text_encoding t,
  length-encode16 ns,
)
identifier_size ns unknown f = elim f [ ]

pub length-node_id_encoding :
    (n : NodeId) → NodeIdFits n → length (node_id_encoding n) ≡ calc_size_node_id n
unfolding node_id_encoding calc_size_node_id
length-node_id_encoding n f = identifier_size n.namespace_index n.identifier f.identifier_fits

-- What stands behind the first byte is read by its form.
numeric-Reads :
    (ns id : ℕ)
    → ns < 2 ^ 16
    → id < 2 ^ 32
    → Reads
        (decode_identifier (bit_and (bit_or 0 (form ns (numeric id))) 63))
        (content ns (numeric id))
        (node_of ns (numeric id))
unfolding decode_identifier
numeric-Reads ns id k h = elim (Bool-cases (is_complete id ns)) [
  | inl p ↦ rw p (
      map-Reads (λ x. node_of x.0 (numeric x.1))
        (also-Reads (uint16-Reads ns k) (uint32-Reads id h)))
  | inr p ↦ elim (Bool-cases (is_four_byte id ns)) [
    | inl q ↦
        let low : ns % 2 ^ 8 ≡ ns = ground arith in
        let short : id % 2 ^ 16 ≡ id = ground arith in
        rw (p, q)
          (Reads-eq refl (λ i. node_of (low i) (numeric (short i)))
            (map-Reads (λ x. node_of x.0 (numeric x.1))
              (also-Reads (byte-Reads (ns % 2 ^ 8))
                (uint16-Reads (id % 2 ^ 16) (omega (arith, short))))))
    | inr q ↦
        let none : 0 ≡ ns = ground arith in
        let low : id % 2 ^ 8 ≡ id = ground arith in
        rw (p, q)
          (Reads-eq refl (λ i. node_of (none i) (numeric (low i)))
            (map-Reads (λ x. node_of 0 (numeric x)) (byte-Reads (id % 2 ^ 8))))
  ]
]

identifier-Reads :
    (ns : ℕ) (id : Identifier)
    → ns < 2 ^ 16
    → IdentifierFits id
    → Reads
        (decode_identifier (bit_and (bit_or 0 (form ns id)) 63))
        (content ns id)
        (node_of ns (canonical_identifier id))
unfolding decode_identifier
identifier-Reads ns (numeric id) k (numeric_fits h) = numeric-Reads ns id k h
identifier-Reads ns (string t) k (string_fits h) =
    map-Reads (λ x. node_of x.0 (string x.1)) (also-Reads (uint16-Reads ns k) (text-Reads t h))
identifier-Reads ns (guid g) k (guid_fits h) =
    map-Reads (λ x. node_of x.0 (guid x.1)) (also-Reads (uint16-Reads ns k) (guid-Reads g h))
identifier-Reads ns (byte_string t) k (byte_string_fits h) =
    map-Reads (λ x. node_of x.0 (byte_string x.1)) (also-Reads (uint16-Reads ns k) (text-Reads t h))
identifier-Reads ns unknown k f = elim f [ ]

pub node_id-Reads :
    (n : NodeId) → NodeIdFits n → Reads decode_node_id (node_id_encoding n) (canonical_node_id n)
unfolding decode_node_id node_id_encoding
node_id-Reads n f =
    >>=-Reads _ (byte-Reads (bit_or 0 (form n.namespace_index n.identifier)))
      (identifier-Reads n.namespace_index n.identifier f.namespace_range f.identifier_fits)
