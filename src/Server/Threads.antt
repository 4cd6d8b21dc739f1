-- ===== src/Server/Threads.antt =====
-- The loop of dhcp/src/main.cpp together with the thread that receives for it.
use klevret_english_ver.Base.{
  ◌≡◌, refl, sym, ◌∙◌, true, List, [], ◌∷◌, Bytes, Option, some, Result, ok, err, ◌>>=◌,
}
use klevret_english_ver.SortedMap.{Order, same, lookup}
use klevret_english_ver.Endian.{Endianness}
use klevret_english_ver.IpAddress.{IPv4Address}
use klevret_english_ver.HardwareAddress.{MacAddress}
use klevret_english_ver.AddressPool.{AddressPool, make_pool}
use klevret_english_ver.UdpListener.{UdpServer, Reach}
use klevret_english_ver.UdpListener.Invariant.{run_all}
use klevret_english_ver.UdpListener.Order.{served}
use klevret_english_ver.Server.{ServerState, handle_datagram, serve}
use klevret_english_ver.Server.Exchange.{serve_one_client}

module _ ⦃ips : Order IPv4Address⦄ ⦃macs : Order MacAddress⦄ (e : Endianness)
    (indeterminate : Bytes) where
  run_all-serve :
      (s : ServerState) (datagrams : List Bytes)
      → run_all (handle_datagram e indeterminate) s datagrams ≡ serve e indeterminate s datagrams
  unfolding run_all serve
  run_all-serve s [] = refl
  run_all-serve s (datagram ∷ datagrams) =
      step (λ next. run_all-serve next datagrams) (handle_datagram e indeterminate s datagram)
    where
      step :
          ((next : ServerState)
            → run_all (handle_datagram e indeterminate) next datagrams
              ≡ serve e indeterminate next datagrams)
          → (r : Result (ServerState × Option Bytes))
          → (r >>= λ (next, reply). run_all (handle_datagram e indeterminate) next datagrams)
            ≡ (r >>= λ (next, sent). serve e indeterminate next datagrams)
      step others (err cause) = refl
      step others (ok (next, sent)) = others next

  -- Whatever the order of the steps of the two threads, the state of the server is the one that the
  -- loop reaches on the datagrams that it has handled, one after the other.
  pub state-serve :
      (s : ServerState) (u : UdpServer ServerState)
      → Reach (handle_datagram e indeterminate) s u
      → serve e indeterminate s u.handled ≡ ok u.state
  state-serve s u r = sym (run_all-serve s u.handled) ∙ served (handle_datagram e indeterminate) r

  -- Whatever the order of the steps of the two threads of a server with a new pool, two clients
  -- whose leases are for one address are one client.
  pub threads_one_client :
      (a b : IPv4Address) (p : AddressPool) (u : UdpServer ServerState)
      → make_pool e a b ≡ ok p
      → Reach (handle_datagram e indeterminate) (record { pool = p; xids = [] }) u
      → (m n : MacAddress) (i j : IPv4Address) → lookup m u.state.pool.taken_mac_addresses ≡ some i
      → lookup n u.state.pool.taken_mac_addresses ≡ some j
      → same i j ≡ true
      → same m n ≡ true
  threads_one_client a b p u made r =
      serve_one_client e indeterminate a b p u.handled u.state made (state-serve _ u r)
