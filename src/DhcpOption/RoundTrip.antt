-- ===== src/DhcpOption/RoundTrip.antt =====
-- An option is written as the bytes that it was read from, and reading it does not depend on what
-- follows it in the message.
use klevret_english_ver.Base.{
  ℕ, zero, suc, ◌≤◌, ◌<◌, ◌≡◌, ◌≢◌, inl, inr, ltb→lt, refl, sym, ap, ◌∙◌, true, false, List, [],
  ◌∷◌, ◌++◌, append-nil, append_assoc, Bytes, IsBytes, length, length-append, ltb, ◌==◌, ok,
  >>=-eq-ok, arith, Bool-cases,
}
use klevret_english_ver.Endian.{Endianness}
use klevret_english_ver.DhcpOption.Description.{DhcpOptionPayloadType, DhcpOptionDescription}
use klevret_english_ver.DhcpOption.Codec.{
  FieldValue, Round, go_on, return, between, process_elements, value_to_network_data,
  values_to_network_data,
}
use klevret_english_ver.DhcpOption.Steps.{
  round_at, is_whole, go_on-Stepped, return_is_whole, round_at-append, between-append,
}
use klevret_english_ver.DhcpOption.Values.{is_transparent, Appends}
use klevret_english_ver.DhcpOption.Written.{round_at-Wrote, round_at-whole}

pub length_zero : (xs : Bytes) → length xs ≡ 0 → xs ≡ []
length_zero [] h = refl
length_zero (x ∷ xs) h = absurd (omega arith)

-- A part of a vector that is not shorter than its end begins with what lies before.
append_split :
    (range next p end : Bytes)
    → range ++ next ≡ p ++ end
    → length end ≤ length next
    → (p' : Bytes) × (p ≡ range ++ p') × (next ≡ p' ++ end)
append_split [] next p end h le = (p, refl, h)
append_split (b ∷ range) next [] end h le =
    absurd (omega (arith, ap length h, length-append range next))
append_split (b ∷ range) next (c ∷ p) end h le =
    let (p', e, f) = append_split range next p end (ground arith) le in (p', ground arith, f)

back-IsBytes : (range next : Bytes) → IsBytes (range ++ next) → IsBytes next
back-IsBytes [] next v = v
back-IsBytes (b ∷ range) next (_, v) = back-IsBytes range next v

values-append :
    (e : Endianness) (values : List FieldValue) (v : FieldValue) (a b : Bytes)
    → values_to_network_data e values ≡ ok a
    → value_to_network_data e v ≡ ok b
    → values_to_network_data e (values ++ v ∷ []) ≡ ok (a ++ b)
unfolding values_to_network_data
values-append e [] v a b h k = ground (arith, append-nil b)
values-append e (x ∷ values) v a b h k =
    let (bytes, p, f) = >>=-eq-ok (value_to_network_data e x) _ h in
    let (rest, q, g) = >>=-eq-ok (values_to_network_data e values) _ f in
    rw (p, values-append e values v rest b q k) (ground (arith, append_assoc bytes rest b))

Appends-written :
    (e : Endianness) (a : Bytes) {values vs : List FieldValue} {range : Bytes}
    → Appends e values range vs
    → values_to_network_data e values ≡ ok a
    → values_to_network_data e vs ≡ ok (a ++ range)
Appends-written e a {values} {vs} {range} w h =
    rw w.appended (values-append e values w.value a range h w.written)

module _ (e : Endianness) (d : DhcpOptionDescription) where
  -- The types of the loop's rounds.
  abbrev pub the_type : DhcpOptionPayloadType
  the_type = d.payload_description.type

  -- How a loop went that ended well: at once, by a return, or by one more round.
  pub data Ended (fuel : ℕ) (iter end : Bytes) (values vs : List FieldValue) : Type 0 where
    stopped : length iter ≡ length end → vs ≡ values → Ended fuel iter end values vs
    returned :
        (length iter == length end) ≡ false
        → round_at e d values the_type iter end ≡ ok (return vs)
        → Ended fuel iter end values vs
    continued :
        (length iter == length end) ≡ false
        → (next : Bytes) (values' : List FieldValue)
        → round_at e d values the_type iter end ≡ ok (go_on next values')
        → process_elements fuel e d next end values' ≡ ok vs
        → Ended fuel iter end values vs

  pub process_elements-Ended :
      (fuel : ℕ) (iter end : Bytes) (values : List FieldValue) {vs : List FieldValue}
      → process_elements (suc fuel) e d iter end values ≡ ok vs
      → Ended fuel iter end values vs
  unfolding process_elements
  process_elements-Ended fuel iter end values {vs} h =
      elim (Bool-cases (length iter == length end)) [
        | inl t ↦ stopped (ground arith) (ground arith)
        | inr off ↦
            let (round, p, f) = >>=-eq-ok (round_at e d values the_type iter end) _ (rw off at h) in
            by off round p f
      ]
    where
      by :
          (length iter == length end) ≡ false
          → (round : Round) → round_at e d values the_type iter end ≡ ok round
          → (elim round [
            | return values' ↦ ok values'
            | go_on next values' ↦ process_elements fuel e d next end values'
          ])
            ≡ ok vs
          → Ended fuel iter end values vs
      by off (return values') p f =
          let eq : values' ≡ vs = ground arith in returned off (rw eq at p)
      by off (go_on next values') p f = continued off next values' p f

  -- A loop that has stepped over the end of its payload does not come back.
  process_elements-overshoot :
      (fuel : ℕ) (iter end : Bytes) (values : List FieldValue) {vs : List FieldValue}
      → is_whole the_type ≡ false
      → length iter < length end
      → process_elements fuel e d iter end values ≢ ok vs
  process_elements-overshoot zero iter end values w lt = λ h. unfold process_elements in cc
  process_elements-overshoot (suc fuel) iter end values {vs} w lt = λ h.
      elim (process_elements-Ended fuel iter end values h) [
        | stopped t _ ↦ absurd (omega arith)
        | returned _ p ↦ absurd (ground (arith, return_is_whole e d values the_type iter end p))
        | continued _ next values' p f ↦
            let (s, _) = go_on-Stepped e d values the_type iter end p in
            process_elements-overshoot fuel next end values' w
              (omega (arith, ap length s.before, length-append s.range next)) f
      ]

  -- What the loop appends is written as the payload.
  pub process_elements-written :
      (fuel : ℕ) (iter p end : Bytes) (values : List FieldValue) (a : Bytes) {vs : List FieldValue}
      → is_transparent e the_type ≡ true
      → IsBytes iter
      → iter ≡ p ++ end
      → values_to_network_data e values ≡ ok a
      → process_elements fuel e d iter end values ≡ ok vs
      → values_to_network_data e vs ≡ ok (a ++ p)
  process_elements-written zero iter p end values a seen v eq w h = unfold process_elements in cc
  process_elements-written (suc fuel) iter p end values a {vs} seen v eq w h =
      elim (process_elements-Ended fuel iter end values h) [
        | stopped t same ↦
            let none_left : p ≡ [] =
              length_zero p (omega (arith, ap length eq, length-append p end)) in
            rw (same, none_left, append-nil a) w
        | returned _ q ↦
            let all =
              round_at-whole e d values the_type iter end
                (return_is_whole e d values the_type iter end q) q in
            let range : between iter end ≡ p = rw eq (between-append p end) in
            Appends-written e a all w ∙ rw range
        | continued _ next values' q f ↦
            let (_, partly) = go_on-Stepped e d values the_type iter end q in
            let wrote = round_at-Wrote e d values the_type iter end next seen partly v q in
            elim (Bool-cases (ltb (length next) (length end))) [
              | inl lt ↦
                  absurd (process_elements-overshoot fuel next end values' partly (ltb→lt _ _ lt) f)
              | inr le ↦
                  let (p', e1, e2) =
                    append_split wrote.range next p end (sym wrote.before ∙ eq) (ground arith) in
                  rw (e1, ← append_assoc a wrote.range p')
                    (process_elements-written fuel next p' end values' (a ++ wrote.range) seen
                      (back-IsBytes wrote.range next (rw wrote.before at v)) e2
                      (Appends-written e a wrote.appends w) f)
            ]
      ]

  -- One more round of the loop.
  process_elements-continue :
      (fuel : ℕ) (iter end next : Bytes) (values values' : List FieldValue)
      → (length iter == length end) ≡ false
      → round_at e d values the_type iter end ≡ ok (go_on next values')
      → process_elements (suc fuel) e d iter end values ≡ process_elements fuel e d next end values'
  unfolding process_elements
  process_elements-continue fuel iter end next values values' off q = rw (off, q) refl

  process_elements-return :
      (fuel : ℕ) (iter end : Bytes) (values values' : List FieldValue)
      → (length iter == length end) ≡ false
      → round_at e d values the_type iter end ≡ ok (return values')
      → process_elements (suc fuel) e d iter end values ≡ ok values'
  unfolding process_elements
  process_elements-return fuel iter end values values' off q = rw (off, q) refl

  -- Bytes behind the payload do not change what the loop appends.
  pub process_elements-append :
      (fuel fuel' : ℕ) (p rest : Bytes) (values : List FieldValue) {vs : List FieldValue}
      → fuel ≤ fuel'
      → process_elements fuel e d p [] values ≡ ok vs
      → process_elements fuel' e d (p ++ rest) rest values ≡ ok vs
  process_elements-append zero fuel' p rest values le h = unfold process_elements in cc
  process_elements-append (suc fuel) zero p rest values le h = absurd (omega arith)
  process_elements-append (suc fuel) (suc fuel') p rest values {vs} le h =
      let grown = length-append p rest in
      elim (process_elements-Ended fuel p [] values h) [
        | stopped t same ↦
            let at_end : (length (p ++ rest) == length rest) ≡ true = ground arith in
            unfold process_elements in rw (at_end, same) refl
        | returned off q ↦
            process_elements-return fuel' (p ++ rest) rest values vs (ground arith)
              (round_at-append e d values the_type p [] rest q)
        | continued off next values' q f ↦
            process_elements-continue fuel' (p ++ rest) rest (next ++ rest) values values'
              (ground arith) (round_at-append e d values the_type p [] rest q)
            ∙ process_elements-append fuel fuel' next rest values' (omega arith) f
      ]
