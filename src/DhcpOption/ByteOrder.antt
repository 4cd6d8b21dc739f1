-- ===== src/DhcpOption/ByteOrder.antt =====
-- `dhcp_option_field_real_value_to_network_data` on what the integers and the flags read: the bytes
-- of an integer are in host order, and a `bool` has no branch.
use klevret_english_ver.Base.{
  ℕ, suc, ◌≡◌, ◌≢◌, refl, sym, ap, ◌∙◌, Bool, List, [], ◌∷◌, ◌++◌, reverse, append-nil, Bytes,
  IsBytes, All-reverse, length, length-append, length-reverse, ok, err, undefined, >>=-eq-ok, arith,
}
use klevret_english_ver.Base.Int.{pos}
use klevret_english_ver.Endian.{Endianness, little}
use klevret_english_ver.Endian.Laws.{of_be_bytes, to_le_bytes-of_le_bytes}
use klevret_english_ver.DhcpOption.Description.{uint_32, DhcpOptionDescription}
use klevret_english_ver.DhcpOption.Codec.{
  DhcpOption, FieldValue, uint32, boolean, split_range, process_element, process_elements, go_on,
  process_uint32, make_option, values_to_network_data, option_to_network_data,
}
use klevret_english_ver.DhcpOption.Steps.{split_range_lem, round_at, return_is_whole}
use klevret_english_ver.DhcpOption.Values.{process_uint32_value}
use klevret_english_ver.DhcpOption.RoundTrip.{
  stopped, returned, continued, process_elements-Ended, length_zero,
}
use klevret_english_ver.DhcpOption.Encoding.{make_option-Made, option_to_network_data-values}

-- One round reads all of a payload of four bytes.
uint32_round :
    (e : Endianness) (d : DhcpOptionDescription) (p next : Bytes) {values' : List FieldValue}
    → length p ≡ 4
    → IsBytes p
    → round_at e d [] uint_32 p [] ≡ ok (go_on next values')
    → (next ≡ []) × (values' ≡ uint32 (of_be_bytes p) ∷ [])
unfolding process_element
uint32_round e d p next {values'} n v h =
    let ((range, after), q, f) = >>=-eq-ok (split_range 4 p) _ h in
    let (vs, r, g) = >>=-eq-ok (process_uint32 e d [] range) _ f in
    let (a, b) = split_range_lem 4 p q in
    let empty : after ≡ [] =
      length_zero after (omega (arith, ap length a, length-append range after)) in
    let all : range ≡ p = sym (append-nil range) ∙ ap (◌++◌ range) (sym empty) ∙ sym a in
    let same : process_uint32 e d [] p ≡ ok values' = rw (← all) (ground arith) in
    (ground arith, process_uint32_value e d [] p n v same)

uint32_values :
    (e : Endianness) (d : DhcpOptionDescription) (fuel : ℕ) (p : Bytes) {vs : List FieldValue}
    → d.payload_description.type ≡ uint_32
    → length p ≡ 4
    → IsBytes p
    → process_elements (suc (suc fuel)) e d p [] [] ≡ ok vs
    → vs ≡ uint32 (of_be_bytes p) ∷ []
uint32_values e d fuel p {vs} t n v h = elim (process_elements-Ended e d (suc fuel) p [] [] h) [
  | stopped at_end _ ↦ absurd (omega arith)
  | returned _ q ↦ absurd (ground (arith, return_is_whole e d [] d.payload_description.type p [] q))
  | continued _ next values' q f ↦
      let round : round_at e d [] uint_32 p [] ≡ ok (go_on next values') =
        ap (λ x. round_at e d [] x p []) (sym t) ∙ q in
      let (empty, one) = uint32_round e d p next n v round in
      elim (process_elements-Ended e d fuel next [] values' f) [
        | stopped _ same ↦ same ∙ one
        | returned off _ ↦ absurd (ground arith)
        | continued off _ _ _ _ ↦ absurd (ground arith)
      ]
]

reverse_written :
    (p : Bytes)
    → length p ≡ 4
    → IsBytes p
    → values_to_network_data little (uint32 (of_be_bytes p) ∷ []) ≡ ok (reverse p)
unfolding values_to_network_data
reverse_written p n v = ap ok (
    append-nil _ ∙ to_le_bytes-of_le_bytes 4 (reverse p) (length-reverse p ∙ n) (All-reverse _ p v))

-- On a little-endian host an option whose type is a 32-bit number, made from four bytes under a code
-- other than 0 and 255, is written with these four bytes in reverse.
pub uint32_option_reversed :
    (code : ℕ) (p : Bytes) {o : DhcpOption}
    → code ≢ 0
    → code ≢ 255
    → length p ≡ 4
    → IsBytes p
    → make_option little code (pos (length p)) p [] ≡ ok o
    → o.description.payload_description.type ≡ uint_32
    → option_to_network_data little o ≡ ok (code ∷ length p ∷ reverse p)
uint32_option_reversed code p {o} not_pad not_end n v h t =
    let m = make_option-Made little code (pos (length p)) p [] h in
    let read = uint32_values little o.description 3 p t n v (rw n at m.processed) in
    option_to_network_data-values little code p (reverse p) not_pad not_end (omega arith) h
      (rw read (reverse_written p n v))

-- The function that writes a value does not return for a flag.
pub flag_value_undefined :
    (e : Endianness) (b : Bool) (values : List FieldValue)
    → values_to_network_data e (boolean b ∷ values) ≡ err undefined
unfolding values_to_network_data
flag_value_undefined e b values = refl
