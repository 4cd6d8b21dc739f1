-- ===== src/Endian/Laws.antt =====
-- Both byte orders of the host give the same result, and the conversions undo each other.
use mathlib.Core.List.{reverse-reverse}
use native.Mathlib.Nat.{pow-suc}
use klevret_english_ver.Base.{
  ℕ, zero, suc, ◌+◌, ◌*◌, ◌/◌, ◌%◌, ◌^◌, ◌<◌, ◌≡◌, refl, ap, ◌∙◌, [], ◌∷◌, reverse, Bytes, IsBytes,
  All-reverse, length, length-reverse, ok, err, size_mismatch, arith, ==_refl, ==_ne, ◌≢◌,
}
use klevret_english_ver.Endian.{
  Endianness, little, big, of_le_bytes, to_le_bytes, byteswap, network_array_to_host_endian,
  network_to_host_endian, host_to_network_endian_array,
}

-- The number whose bytes these are, the highest byte first: network order.
abbrev pub of_be_bytes : Bytes → ℕ
of_be_bytes arr = of_le_bytes (reverse arr)

abbrev pub to_be_bytes : ℕ → ℕ → Bytes
to_be_bytes n v = reverse (to_le_bytes n v)

pub length-to_le_bytes : (n v : ℕ) → length (to_le_bytes n v) ≡ n
length-to_le_bytes zero v = refl
length-to_le_bytes (suc n) v = ap suc (length-to_le_bytes n (v / 256))

pub to_le_bytes-IsBytes : (n v : ℕ) → IsBytes (to_le_bytes n v)
to_le_bytes-IsBytes zero v = tt
to_le_bytes-IsBytes (suc n) v = (omega arith, to_le_bytes-IsBytes n (v / 256))

pub to_le_bytes-of_le_bytes :
    (n : ℕ) (arr : Bytes) → length arr ≡ n → IsBytes arr → to_le_bytes n (of_le_bytes arr) ≡ arr
to_le_bytes-of_le_bytes zero [] h v = refl
to_le_bytes-of_le_bytes zero (b ∷ bs) h v = absurd (omega arith)
to_le_bytes-of_le_bytes (suc n) [] h v = absurd (omega arith)
to_le_bytes-of_le_bytes (suc n) (b ∷ bs) h (lt, v) =
    let head : (b + 256 * of_le_bytes bs) % 256 ≡ b = omega arith in
    let rest : (b + 256 * of_le_bytes bs) / 256 ≡ of_le_bytes bs = omega arith in
    rw (head, rest) (ap (◌∷◌ b) (to_le_bytes-of_le_bytes n bs (omega arith) v))

pub of_le_bytes-to_le_bytes : (n v : ℕ) → v < 256 ^ n → of_le_bytes (to_le_bytes n v) ≡ v
of_le_bytes-to_le_bytes zero v h = omega arith
of_le_bytes-to_le_bytes (suc n) v h =
    omega (arith, of_le_bytes-to_le_bytes n (v / 256) (omega (arith, pow-suc 256 n)))

of_le_bytes-lt : (arr : Bytes) → IsBytes arr → of_le_bytes arr < 256 ^ length arr
of_le_bytes-lt [] v = omega arith
of_le_bytes-lt (b ∷ bs) (lt, v) = omega (arith, of_le_bytes-lt bs v, pow-suc 256 (length bs))

byteswap-of_le_bytes :
    (n : ℕ) (arr : Bytes)
    → length arr ≡ n
    → IsBytes arr
    → byteswap n (of_le_bytes arr) ≡ of_be_bytes arr
byteswap-of_le_bytes n arr h v = rw (to_le_bytes-of_le_bytes n arr h v)

-- On either host the conversion reads the array in network order.
pub network_array_to_host_endian_lem :
    (e : Endianness) (n : ℕ) (arr : Bytes)
    → length arr ≡ n
    → IsBytes arr
    → network_array_to_host_endian e n arr ≡ ok (of_be_bytes arr)
unfolding network_array_to_host_endian
network_array_to_host_endian_lem little n arr h v =
    rw (h, ==_refl n) (ap ok (byteswap-of_le_bytes n arr h v))
network_array_to_host_endian_lem big n arr h v = rw (h, ==_refl n)

pub network_to_host_endian_lem :
    (e : Endianness) (n : ℕ) (arr : Bytes)
    → length arr ≡ n
    → IsBytes arr
    → network_to_host_endian e n arr ≡ ok (of_be_bytes arr)
unfolding network_to_host_endian
network_to_host_endian_lem little n arr h v =
    rw (h, ==_refl n) (ap ok (byteswap-of_le_bytes n arr h v))
network_to_host_endian_lem big n arr h v = rw (h, ==_refl n)

pub network_to_host_endian_size :
    (e : Endianness) (n : ℕ) (arr : Bytes)
    → length arr ≢ n
    → network_to_host_endian e n arr ≡ err size_mismatch
unfolding network_to_host_endian
network_to_host_endian_size e n arr h = rw (==_ne _ _ h)

-- On either host the array holds the value in network order.
pub host_to_network_endian_array_lem :
    (e : Endianness) (n v : ℕ) → host_to_network_endian_array e n n v ≡ ok (to_be_bytes n v)
unfolding host_to_network_endian_array
host_to_network_endian_array_lem little n v = rw (==_refl n) (
    ap ok (
      to_le_bytes-of_le_bytes n (to_be_bytes n v)
        (length-reverse (to_le_bytes n v) ∙ length-to_le_bytes n v)
        (All-reverse _ (to_le_bytes n v) (to_le_bytes-IsBytes n v))))
host_to_network_endian_array_lem big n v = rw (==_refl n)

pub of_be_bytes-to_be_bytes : (n v : ℕ) → v < 256 ^ n → of_be_bytes (to_be_bytes n v) ≡ v
of_be_bytes-to_be_bytes n v h =
    rw (reverse-reverse (to_le_bytes n v)) (of_le_bytes-to_le_bytes n v h)

pub length-to_be_bytes : (n v : ℕ) → length (to_be_bytes n v) ≡ n
length-to_be_bytes n v = length-reverse (to_le_bytes n v) ∙ length-to_le_bytes n v

pub to_be_bytes-IsBytes : (n v : ℕ) → IsBytes (to_be_bytes n v)
to_be_bytes-IsBytes n v = All-reverse _ (to_le_bytes n v) (to_le_bytes-IsBytes n v)

pub to_be_bytes-of_be_bytes :
    (n : ℕ) (arr : Bytes) → length arr ≡ n → IsBytes arr → to_be_bytes n (of_be_bytes arr) ≡ arr
to_be_bytes-of_be_bytes n arr h v =
    rw (to_le_bytes-of_le_bytes n (reverse arr) (length-reverse arr ∙ h) (All-reverse _ arr v))
      (reverse-reverse arr)

pub of_be_bytes-lt : (arr : Bytes) → IsBytes arr → of_be_bytes arr < 256 ^ length arr
of_be_bytes-lt arr v =
    rw (← length-reverse arr) (of_le_bytes-lt (reverse arr) (All-reverse _ arr v))
