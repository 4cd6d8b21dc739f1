-- ===== src/Tests/Exchange.antt =====
-- A discovery, a request, and a request that was not preceded by a discovery.
use klevret_english_ver.Base.{
  ◌≡◌, ◌≢◌, refl, Option, Result, true, none, some, [], ◌∷◌, ◌++◌, replicate, Bytes, ok, ◌>>=◌,
}
use klevret_english_ver.SortedMap.{same, lookup, assign, contains}
use klevret_english_ver.Endian.{
  little, network_array_to_host_endian, network_to_host_endian, host_to_network_endian_array,
}
use klevret_english_ver.IpAddress.{
  of_uint32, address_lt, to_uint32, of_string, scan_octets, parse_octet, scan_digits, copy_octets,
  from_big_endian_bytes, to_network_data,
}
use klevret_english_ver.IpAddress.Mask.{
  mask_of_uint32, mask_from_big_endian_bytes, mask_to_network_data,
}
use klevret_english_ver.IpAddress.Order.{address_order}
use klevret_english_ver.HardwareAddress.{
  mac_lt, lt_from, make_ptr_from_big_endian_bytes, to_chaddr, fill_chaddr, htype_of_uint8,
  htype_to_uint8, get_hardware_address_length,
}
use klevret_english_ver.HardwareAddress.Mac.{mac_order}
use klevret_english_ver.DhcpOption.Description.{is_correct_uint, satisfies_uint, is_allowed}
use klevret_english_ver.DhcpOption.Table.{description_at, find_in, options_descriptions}
use klevret_english_ver.DhcpOption.Codec.{
  make_option, split_range, process_elements, process_element, process_ip_address,
  process_subnet_mask, process_uint8, process_uint32, process_uint_enum, value_to_network_data,
  values_to_network_data, option_to_network_data,
}
use klevret_english_ver.DhcpMessage.{
  DhcpMessage, new_message, message_to_network_data, fixed_to_network_data, options_to_network_data,
  parse, parse_fixed, parse_options,
}
use klevret_english_ver.AddressPool.{code_order, get_address, get_taken, get_cached, first_free}
use klevret_english_ver.Server.{
  ServerState, make_offer, reply_with, find_option53, get_uint8, on_discover, on_request,
  handle_datagram,
}
use klevret_english_ver.Server.Replies.{reply_fields, reply_options, make_offer_sent}
use klevret_english_ver.Server.Exchange.{on_request_unknown, discover_then_request}
use klevret_english_ver.Server.Threads.{threads_one_client}
use klevret_english_ver.UdpListener.Invariant.{arriving, taken}
use klevret_english_ver.UdpListener.Order.{datagrams_in_order}
use klevret_english_ver.UdpListener.{
  UdpServer, handling, undefined_behaviour, ReceiverStep, MainStep, Step, Reach, new_server,
  sent_with,
}
use klevret_english_ver.Server.{serve}
use klevret_english_ver.Server.Serving.{Serves, Fails, serve_sending, serve_sending_accounts}
use klevret_english_ver.Sockets.Descriptors.{Ends}
use klevret_english_ver.Tests.Sockets.{fds, two_os, two_os-Accounts, none_open}
use klevret_english_ver.Tests.{
  ip_10, ip_11, mac_a, small_pool, leased_pool, indeterminate_six, ip_10-IsAddress, mac_a-IsMac,
}
use klevret_english_ver.Tests.Pool.{small_pool_made, first_lease}

abbrev packet : DhcpMessage
packet = record (new_message little) { xid = 7; chaddr = some mac_a }

abbrev new_state : ServerState
new_state = record { pool = small_pool; xids = [] }

make_offer_sent_example :
    (make_offer little packet ip_10 >>= message_to_network_data little)
    ≡ ok (reply_fields 7 ip_10 mac_a ++ reply_options little 2)
make_offer_sent_example = make_offer_sent little packet ip_10 mac_a refl ip_10-IsAddress mac_a-IsMac

no_transaction : lookup ⦃o = code_order⦄ 7 new_state.xids ≡ none
unfolding lookup
no_transaction = refl

on_request_unknown_example :
    on_request ⦃ips = address_order little⦄ ⦃macs = mac_order⦄ little new_state packet
    ≡ ok (
      record { pool = small_pool; xids = assign ⦃o = code_order⦄ 7 (of_uint32 little 0) [] },
      some (reply_fields 7 (of_uint32 little 0) mac_a ++ reply_options little 5),
    )
on_request_unknown_example =
    on_request_unknown ⦃ips = address_order little⦄ ⦃macs = mac_order⦄ little new_state packet mac_a
      refl mac_a-IsMac no_transaction

discover_then_request_example :
    (s' : ServerState) × (on_discover ⦃ips = address_order little⦄ ⦃macs = mac_order⦄ little
        new_state packet
      ≡ ok (s', some (reply_fields 7 ip_10 mac_a ++ reply_options little 2)))
    × (on_request ⦃ips = address_order little⦄ ⦃macs = mac_order⦄ little s' packet
        ≡ ok (s', some (reply_fields 7 ip_10 mac_a ++ reply_options little 5)))
    × (lookup ⦃o = mac_order⦄ mac_a s'.pool.taken_mac_addresses ≡ some ip_10)
discover_then_request_example =
    discover_then_request ⦃ips = address_order little⦄ ⦃macs = mac_order⦄ little new_state packet
      packet mac_a ip_10 leased_pool mac_a-IsMac ip_10-IsAddress refl refl refl first_lease

-- A discovery by `mac_a`.
abbrev discovery : Bytes
discovery =
    1
    ∷ 1
    ∷ 6
    ∷ 0
    ∷ 0
    ∷ 0
    ∷ 0
    ∷ 7
    ∷ (replicate 20 0
        ++ (mac_a.octets ++ (replicate 202 0 ++ (99 ∷ 130 ∷ 83 ∷ 99 ∷ 53 ∷ 1 ∷ 1 ∷ 255 ∷ []))))

abbrev later_state : ServerState
later_state = record { pool = leased_pool; xids = (7, ip_10) ∷ [] }

-- The discovery is handled, and answered.
handled :
    (reply : Option Bytes) × (handle_datagram ⦃ips = address_order little⦄ ⦃macs = mac_order⦄ little
        indeterminate_six new_state discovery
      ≡ ok (later_state, reply))
unfolding handle_datagram on_discover make_offer reply_with find_option53 get_uint8 parse
    parse_fixed parse_options get_address get_taken get_cached first_free lookup contains assign
    of_string scan_octets parse_octet scan_digits host_to_network_endian_array
    network_to_host_endian of_uint32 copy_octets from_big_endian_bytes
    make_ptr_from_big_endian_bytes mask_of_uint32 mask_from_big_endian_bytes mask_to_network_data
    to_network_data to_chaddr fill_chaddr htype_of_uint8 htype_to_uint8 get_hardware_address_length
    make_option description_at find_in options_descriptions is_correct_uint satisfies_uint
    is_allowed split_range process_elements process_element process_ip_address process_subnet_mask
    process_uint8 process_uint32 process_uint_enum value_to_network_data values_to_network_data
    option_to_network_data new_message message_to_network_data fixed_to_network_data
    options_to_network_data
handled = (_, refl)

leased : lookup ⦃o = mac_order⦄ mac_a later_state.pool.taken_mac_addresses ≡ some ip_10
unfolding lookup mac_order mac_lt lt_from
leased = refl

one_address : same ⦃o = address_order little⦄ ip_10 ip_10 ≡ true
unfolding address_order address_lt to_uint32 network_array_to_host_endian
one_address = refl

abbrev handle : ServerState → Bytes → Result (ServerState × Option Bytes)
handle = handle_datagram ⦃ips = address_order little⦄ ⦃macs = mac_order⦄ little indeterminate_six

-- The receiver puts the discovery into the queue; the loop takes it and handles it.
abbrev served_server : UdpServer ServerState
served_server = record (new_server handle new_state) {
  state = later_state;
  datagrams = discovery ∷ [];
  handled = discovery ∷ [];
  sent = sent_with [] handled.0;
}

queued :
    Reach handle new_state
      (record (new_server handle new_state) { queue = discovery ∷ []; datagrams = discovery ∷ [] })
queued =
    Reach.later
      (Reach.later
        (Reach.later
          (Reach.later
            (Reach.later Reach.start (Step.receiver_moves (ReceiverStep.listen refl refl)))
            (Step.receiver_moves (ReceiverStep.receive discovery refl)))
          (Step.receiver_moves (ReceiverStep.lock_push refl refl)))
        (Step.receiver_moves (ReceiverStep.push refl)))
      (Step.receiver_moves (ReceiverStep.unlock_push refl))

fetched :
    Reach handle new_state (record (new_server handle new_state) {
      main = handling discovery;
      datagrams = discovery ∷ [];
    })
fetched =
    Reach.later
      (Reach.later
        (Reach.later
          (Reach.later
            (Reach.later
              (Reach.later (Reach.later queued (Step.main_moves (MainStep.lock_test refl refl)))
                (Step.main_moves (MainStep.test refl)))
              (Step.main_moves (MainStep.unlock_filled refl)))
            (Step.main_moves (MainStep.lock_get refl refl)))
          (Step.main_moves (MainStep.front refl refl)))
        (Step.main_moves (MainStep.pop refl refl)))
      (Step.main_moves (MainStep.unlock_get refl))

served : Reach handle new_state served_server
served = Reach.later fetched (Step.main_moves (MainStep.handle_taken refl handled.1))

threads_one_client_example : same ⦃o = mac_order⦄ mac_a mac_a ≡ true
threads_one_client_example =
    threads_one_client ⦃ips = address_order little⦄ ⦃macs = mac_order⦄ little indeterminate_six
      ip_10 ip_11 small_pool served_server small_pool_made served mac_a mac_a ip_10 ip_10 leased
      leased one_address

datagrams_in_order_example :
    (served_server.main ≢ undefined_behaviour)
    × (served_server.datagrams
        ≡ served_server.handled
          ++ (taken served_server.main ++ (served_server.queue ++ arriving served_server.receiver)))
datagrams_in_order_example = datagrams_in_order handle new_state served_server served

abbrev served_alone : Result ServerState
served_alone =
    serve ⦃ips = address_order little⦄ ⦃macs = mac_order⦄ little indeterminate_six new_state
      (discovery ∷ [])

serve_sending_accounts_example :
    Ends fds (Serves served_alone (fds none_open)) (Fails two_os served_alone (fds none_open)) (
      serve_sending two_os ⦃ips = address_order little⦄ ⦃macs = mac_order⦄ little indeterminate_six
        new_state
        (discovery ∷ [])
        none_open)
serve_sending_accounts_example =
    serve_sending_accounts two_os fds two_os-Accounts ⦃ips = address_order little⦄
      ⦃macs = mac_order⦄ little indeterminate_six new_state (discovery ∷ []) none_open
