-- ===== src/Dns/Message.antt =====
-- libraries/DNSServer/src: the header, the question and the name of a query.
use idf_custom_arduino.Base.{
  ℕ, zero, suc, ◌+◌, ◌-◌, ◌*◌, ◌/◌, ◌%◌, ◌^◌, Bool, Option, none, some, leb, ◌&&◌, ◌||◌, List, [],
  ◌∷◌, ◌++◌, ltb, ◌==◌, if◌then◌else◌, length, get_or, set, slice,
}

abbrev pub dns_header_size : ℕ
dns_header_size = 12

abbrev pub dns_offset_domain_name : ℕ
dns_offset_domain_name = 12

-- `struct DNSHeader` is its 12 bytes, as they lie in memory; the two-byte numbers are in network
-- order. The compiler puts the first bit field into the lowest bits.
abbrev pub qr : List ℕ → ℕ
qr h = get_or h 2 0 / 128

abbrev pub op_code : List ℕ → ℕ
op_code h = get_or h 2 0 / 8 % 16

abbrev pub set_qr_response : List ℕ → List ℕ
set_qr_response h = set h 2 (get_or h 2 0 % 128 + 128)

abbrev pub set_r_code : ℕ → List ℕ → List ℕ
set_r_code code h = set h 3 (get_or h 3 0 / 16 * 16 + code % 16)

-- `_dnsHeader->ANCount = _dnsHeader->QDCount`
abbrev pub set_an_count : List ℕ → List ℕ
set_an_count h = set (set h 6 (get_or h 4 0)) 7 (get_or h 5 0)

abbrev pub set_qd_count_zero : List ℕ → List ℕ
set_qd_count_zero h = set (set h 4 0) 5 0

unfoldable pub request_includes_only_one_question : List ℕ → Bool
request_includes_only_one_question h =
    (get_or h 4 0 * 256 + get_or h 5 0 == 1)
    && (get_or h 6 0 + get_or h 7 0 == 0)
    && (get_or h 8 0 + get_or h 9 0 == 0)
    && (get_or h 10 0 + get_or h 11 0 == 0)

-- How a walk over a name goes: to its end; to the first access outside `_buffer` or `QName`, behind
-- which the code promises nothing; or on.
pub data Walk : Type 0 where
  done : List ℕ → Walk
  fault : Walk
  no_fuel : Walk

-- The index `base + QNameLength`, for an `int8_t` with the bits `n`; none if it is negative.
abbrev pub place : ℕ → ℕ → Option ℕ
place base n =
    if ltb n (2 ^ 7)
    then some (base + n)
    else if leb (2 ^ 8) (base + n)
    then some (base + n - 2 ^ 8)
    else none

-- `sizeof(QName)`
abbrev pub qname_size : ℕ
qname_size = 255

-- The loop, with the bits `n` of `QNameLength`: a label is copied to that index of `QName`, behind what
-- is in `name`, and the zero byte at the end.
unfoldable pub copy_labels : ℕ → List ℕ → ℕ → List ℕ → Walk
copy_labels zero buf n name = no_fuel
copy_labels (suc fuel) buf n name = elim (place dns_header_size n) [
  | none ↦ fault
  | some at ↦
      let size = get_or buf at 0 in
      let rest =
        copy_labels fuel buf ((n + (size + 1)) % 2 ^ 8) (name ++ slice at (size + 1) buf) in
      let copied : Walk = elim (place 0 n) [
        | none ↦ fault
        | some to ↦
            if size == 0
            then (if ltb to qname_size then done (name ++ 0 ∷ []) else fault)
            else if ltb (length buf) (at + size + 1) || ltb qname_size (to + size + 1)
            then fault
            else rest
      ] in
      if ltb at (length buf) then copied else fault
]

-- Enough: each round adds to `QNameLength`, and a negative one is no index of `QName`.
unfoldable pub read_qname : List ℕ → Walk
read_qname buf = copy_labels 129 buf 0 []

-- `getDomainNameWithoutWwwPrefix` from offset `pos` of the name on: the labels, joined by dots.
unfoldable pub join_labels : ℕ → List ℕ → ℕ → List ℕ → Walk
join_labels zero buf pos name = no_fuel
join_labels (suc fuel) buf pos name =
    let at = dns_offset_domain_name + pos in
    let size = get_or buf at 0 in
    let next = at + size + 1 in
    let longer = name ++ slice (at + 1) size buf in
    let rest = join_labels fuel buf (pos + size + 1) (longer ++ 0x2e ∷ []) in
    if ltb next (length buf) then (if get_or buf next 0 == 0 then done longer else rest) else fault

-- The name before it is brought to lower case; empty if the first label is.
unfoldable pub parsed_domain_name : List ℕ → Walk
parsed_domain_name buf =
    if ltb dns_offset_domain_name (length buf)
    then (if get_or buf dns_offset_domain_name 0 == 0
        then done []
        else join_labels (length buf) buf 0 [])
    else fault
