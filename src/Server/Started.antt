-- ===== src/Server/Started.antt =====
-- How the beginning of `main` ends.
use klevret_english_ver.Base.{ℕ, ◌≡◌, ◌⊎◌, Result, err, undefined, List, [], ◌∷◌, map, Bytes, ok}
use klevret_english_ver.DhcpMessage.{DhcpMessage}
use klevret_english_ver.DhcpOption.Codec.{DhcpOption}
use klevret_english_ver.Sockets.Descriptors.{Fds}
use klevret_english_ver.NetworkInterface.{NetworkInterface}
use klevret_english_ver.UdpListener.Opening.{IsServer}
use klevret_english_ver.Server.StartUp.{interface_lines}

abbrev pub option_codes : DhcpMessage → List ℕ
option_codes m = map (λ (o : DhcpOption). o.description.code) m.options

abbrev pub sample_codes : List ℕ
sample_codes = 53 ∷ 54 ∷ 51 ∷ 58 ∷ 59 ∷ 1 ∷ 28 ∷ 3 ∷ 6 ∷ 12 ∷ []

-- One of the two lists has a null address, or the null mask of an IPv4 element.
abbrev pub EitherNull : Result (List NetworkInterface) → Result (List NetworkInterface) → Type 0
EitherNull interfaces again = (interfaces ≡ err undefined) ⊎ (again ≡ err undefined)

-- The printed text, the message, and the members of the listener, by what the two lists report.
abbrev pub IsStarted :
    Result (List NetworkInterface)
    → Result (List NetworkInterface)
    → Fds
    → Bytes × (DhcpMessage × (List NetworkInterface × ℕ))
    → Fds
    → Type 0
IsStarted interfaces again before (text, (m, server)) after =
    ((ifaces : List NetworkInterface) × (interfaces ≡ ok ifaces) × (text ≡ interface_lines ifaces))
    × (option_codes m ≡ sample_codes)
    × IsServer again before server after
