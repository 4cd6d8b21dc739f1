-- ===== src/Server/Exchange.antt =====
-- Rounds of the server's loop: what they do to the pool and to the open transactions.
use klevret_english_ver.Base.{
  ℕ, ◌≡◌, refl, sym, ap, ◌∙◌, true, Option, none, some, List, [], ◌∷◌, ◌++◌, Bytes, ok, ◌>>=◌,
  >>=_assoc, >>=-eq-ok, arith,
}
use klevret_english_ver.SortedMap.{Order, same, Map, lookup, assign}
use klevret_english_ver.SortedMap.Laws.{lookup-assign, same_refl}
use klevret_english_ver.Endian.{Endianness}
use klevret_english_ver.IpAddress.{IPv4Address, of_uint32}
use klevret_english_ver.HardwareAddress.{MacAddress}
use klevret_english_ver.DhcpMessage.{
  DhcpMessage, DhcpMessageType, bootrequest, parse, message_to_network_data, dereference,
}
use klevret_english_ver.AddressPool.{AddressPool, code_order, make_pool, get_address}
use klevret_english_ver.AddressPool.Leases.{Inv, get_address-Inv}
use klevret_english_ver.AddressPool.History.{make_pool-Inv, one_client}
use klevret_english_ver.AddressPool.Assignment.{get_address-lookup}
use klevret_english_ver.IpAddress.Network.{IsAddress, of_uint32-IsAddress}
use klevret_english_ver.HardwareAddress.Mac.{IsMac}
use klevret_english_ver.Server.Replies.{
  reply_fields, reply_options, make_offer_sent, make_acknowledge_sent,
}
use klevret_english_ver.Server.{
  ServerState, Option53MessageType, dhcpdiscover, dhcprequest, make_offer, make_acknowledge,
  find_option53, get_uint8, message_type_of_uint8, subscript, acknowledge_with, on_discover,
  on_request, on_message, on_packet, handle_datagram, serve,
}

module _ ⦃ips : Order IPv4Address⦄ ⦃macs : Order MacAddress⦄ (e : Endianness) where
  -- What a discovery has done that was answered.
  record Discovered (s : ServerState) (packet : DhcpMessage) (s' : ServerState)
      (sent : Option Bytes) : Type 0 where
    mac : MacAddress
    ip : IPv4Address
    client : packet.chaddr ≡ some mac
    got : get_address s.pool mac ≡ ok (ip, s'.pool)
    remembered : s'.xids ≡ assign ⦃o = code_order⦄ packet.xid ip s.xids

  client_of :
      (packet : DhcpMessage) {mac : MacAddress}
      → dereference packet.chaddr ≡ ok mac
      → packet.chaddr ≡ some mac
  client_of packet {mac} h = by packet.chaddr h
    where
      by : (c : Option MacAddress) → dereference c ≡ ok mac → c ≡ some mac
      by none h = cc
      by (some a) h = ground arith

  on_discover-Discovered :
      (s : ServerState) (packet : DhcpMessage) {s' : ServerState} {sent : Option Bytes}
      → on_discover e s packet ≡ ok (s', sent)
      → Discovered s packet s' sent
  unfolding on_discover
  on_discover-Discovered s packet {s'} {sent} h =
      let (mac, p, f) = >>=-eq-ok (dereference packet.chaddr) _ h in
      let ((ip, pool), q, g) = >>=-eq-ok (get_address s.pool mac) _ f in
      let (offer, r, k) = >>=-eq-ok (make_offer e packet ip) _ g in
      let (bytes, t, l) = >>=-eq-ok (message_to_network_data e offer) _ k in
      let whole : s' ≡ record { pool = pool; xids = assign ⦃o = code_order⦄ packet.xid ip s.xids } =
        ground arith in
      rw whole
        (record { mac = mac; ip = ip; client = client_of packet p; got = q; remembered = refl })

  -- A request leaves the pool as it is.
  acknowledge_with-pool :
      (s : ServerState) (packet : DhcpMessage) (ip : IPv4Address) (xids : Map ℕ IPv4Address)
      {s' : ServerState} {sent : Option Bytes}
      → acknowledge_with e s packet ip xids ≡ ok (s', sent)
      → s'.pool ≡ s.pool
  unfolding acknowledge_with
  acknowledge_with-pool s packet ip xids {s'} {sent} h =
      let (acknowledge, p, f) = >>=-eq-ok (make_acknowledge e packet ip) _ h in
      let (bytes, q, g) = >>=-eq-ok (message_to_network_data e acknowledge) _ f in ground arith

  on_request-pool :
      (s : ServerState) (packet : DhcpMessage) {s' : ServerState} {sent : Option Bytes}
      → on_request e s packet ≡ ok (s', sent)
      → s'.pool ≡ s.pool
  unfolding on_request
  on_request-pool s packet h =
      let entry = subscript e packet.xid s.xids in acknowledge_with-pool s packet entry.0 entry.1 h

  discover-Inv :
      (s : ServerState) (packet : DhcpMessage) {s' : ServerState} {sent : Option Bytes}
      → Inv s.pool
      → on_discover e s packet ≡ ok (s', sent)
      → Inv s'.pool
  discover-Inv s packet v h =
      let d = on_discover-Discovered s packet h in get_address-Inv s.pool d.mac v d.got

  request-Inv :
      (s : ServerState) (packet : DhcpMessage) {s' : ServerState} {sent : Option Bytes}
      → Inv s.pool
      → on_request e s packet ≡ ok (s', sent)
      → Inv s'.pool
  request-Inv s packet v h = rw (on_request-pool s packet h) v

  message-Inv :
      (s : ServerState) (packet : DhcpMessage) (t : Option53MessageType) {s' : ServerState}
      {sent : Option Bytes}
      → Inv s.pool
      → on_message e s packet t ≡ ok (s', sent)
      → Inv s'.pool
  message-Inv s packet dhcpdiscover v h = discover-Inv s packet v h
  message-Inv s packet dhcprequest v h = request-Inv s packet v h
  message-Inv s packet _ {s'} v h = let eq : s' ≡ s = ground arith in rw eq v

  packet-Inv :
      (s : ServerState) (packet : DhcpMessage) (t : DhcpMessageType) {s' : ServerState}
      {sent : Option Bytes}
      → Inv s.pool
      → on_packet e s packet t ≡ ok (s', sent)
      → Inv s'.pool
  packet-Inv s packet bootrequest v h =
      let (o, p, f) = >>=-eq-ok (find_option53 packet.options) _ h in
      let (value, q, g) = >>=-eq-ok (get_uint8 o.real_values) _ f in
      message-Inv s packet (message_type_of_uint8 value) v g
  packet-Inv s packet _ {s'} v h = let eq : s' ≡ s = ground arith in rw eq v

  -- A round that does not end the program keeps the pool's maps consistent.
  pub handle_datagram-Inv :
      (indeterminate : Bytes) (s : ServerState) (datagram : Bytes) {s' : ServerState}
      {sent : Option Bytes}
      → Inv s.pool
      → handle_datagram e indeterminate s datagram ≡ ok (s', sent)
      → Inv s'.pool
  unfolding handle_datagram
  handle_datagram-Inv indeterminate s datagram v h =
      let (packet, p, f) = >>=-eq-ok (parse e indeterminate datagram) _ h in
      packet-Inv s packet packet.op v f

  serve-Inv :
      (indeterminate : Bytes) (s : ServerState) (datagrams : List Bytes) {s' : ServerState}
      → Inv s.pool
      → serve e indeterminate s datagrams ≡ ok s'
      → Inv s'.pool
  unfolding serve
  serve-Inv indeterminate s [] {s'} v h = let eq : s' ≡ s = ground arith in rw eq v
  serve-Inv indeterminate s (datagram ∷ datagrams) v h =
      let ((next, sent), p, f) = >>=-eq-ok (handle_datagram e indeterminate s datagram) _ h in
      serve-Inv indeterminate next datagrams (handle_datagram-Inv indeterminate s datagram v p) f

  -- When a server that began with a new pool has handled some datagrams and no exception has ended
  -- it, two clients whose leases are for one address are one client.
  pub serve_one_client :
      (indeterminate : Bytes) (a b : IPv4Address) (p : AddressPool) (datagrams : List Bytes)
      (s : ServerState)
      → make_pool e a b ≡ ok p
      → serve e indeterminate (record { pool = p; xids = [] }) datagrams ≡ ok s
      → (m n : MacAddress) (i j : IPv4Address) → lookup m s.pool.taken_mac_addresses ≡ some i
      → lookup n s.pool.taken_mac_addresses ≡ some j
      → same i j ≡ true
      → same m n ≡ true
  serve_one_client indeterminate a b p datagrams s made run m n i j = one_client s.pool m n i j (
      serve-Inv indeterminate (record { pool = p; xids = [] }) datagrams
        (make_pool-Inv e a b p made) run)

module _ ⦃ips : Order IPv4Address⦄ ⦃macs : Order MacAddress⦄ (e : Endianness) (s : ServerState)
    (packet : DhcpMessage) (mac : MacAddress) (c : packet.chaddr ≡ some mac) (w : IsMac mac) where
  acknowledged :
      (ip : IPv4Address) (xids : Map ℕ IPv4Address)
      → IsAddress ip
      → acknowledge_with e s packet ip xids
        ≡ ok (record s { xids = xids }, some (reply_fields packet.xid ip mac ++ reply_options e 5))
  unfolding acknowledge_with
  acknowledged ip xids v =
      sym (>>=_assoc (make_acknowledge e packet ip) (message_to_network_data e) _)
      ∙ ap (λ r. r >>= λ bytes. ok (record s { xids = xids }, some bytes))
          (make_acknowledge_sent e packet ip mac c v w)

  -- A request in an open transaction is acknowledged with the address of that transaction.
  on_request_open :
      (ip : IPv4Address)
      → IsAddress ip
      → lookup ⦃o = code_order⦄ packet.xid s.xids ≡ some ip
      → on_request e s packet ≡ ok (s, some (reply_fields packet.xid ip mac ++ reply_options e 5))
  unfolding on_request
  on_request_open ip v h =
      let entry : subscript e packet.xid s.xids ≡ (ip, s.xids) = rw (subscript, h) refl in
      ap (λ (r : IPv4Address × Map ℕ IPv4Address). acknowledge_with e s packet r.0 r.1) entry
      ∙ acknowledged ip s.xids v

  -- A request in no open transaction, from a client with a hardware address, is acknowledged with
  -- the address 0.0.0.0, and the transaction is entered with it.
  pub on_request_unknown :
      lookup ⦃o = code_order⦄ packet.xid s.xids ≡ none
      → on_request e s packet
        ≡ ok (
          record s { xids = assign ⦃o = code_order⦄ packet.xid (of_uint32 e 0) s.xids },
          some (reply_fields packet.xid (of_uint32 e 0) mac ++ reply_options e 5),
        )
  unfolding on_request
  on_request_unknown h =
      let zero_address : IPv4Address = of_uint32 e 0 in
      let xids = assign ⦃o = code_order⦄ packet.xid zero_address s.xids in
      let entry : subscript e packet.xid s.xids ≡ (zero_address, xids) = rw (subscript, h) refl in
      ap (λ (r : IPv4Address × Map ℕ IPv4Address). acknowledge_with e s packet r.0 r.1) entry
      ∙ acknowledged zero_address xids (of_uint32-IsAddress e 0)

  -- A discovery for which the pool has an address is answered with an offer of it.
  pub on_discover_offered :
      (ip : IPv4Address) (pool : AddressPool)
      → IsAddress ip
      → get_address s.pool mac ≡ ok (ip, pool)
      → on_discover e s packet
        ≡ ok (
          record { pool = pool; xids = assign ⦃o = code_order⦄ packet.xid ip s.xids },
          some (reply_fields packet.xid ip mac ++ reply_options e 2),
        )
  unfolding on_discover
  on_discover_offered ip pool v got =
      let s' : ServerState = record {
        pool = pool;
        xids = assign ⦃o = code_order⦄ packet.xid ip s.xids;
      } in
      let offered =
        sym (
          >>=_assoc (make_offer e packet ip) (message_to_network_data e)
            (λ bytes. ok (s', some bytes)))
        ∙ ap (λ r. r >>= λ bytes. ok (s', some bytes)) (make_offer_sent e packet ip mac c v w) in
      simp (ap dereference c, got) offered

-- A client that asks for an address and then requests it in the same transaction is offered an
-- address and gets that address acknowledged, and the pool has it down as the client's. Both
-- messages have its hardware address, of six octets, and `get_address` is to succeed for it, with an
-- address of four octets.
pub discover_then_request :
    ⦃ips : Order IPv4Address⦄ ⦃macs : Order MacAddress⦄
    → (e : Endianness) (s : ServerState) (discover request : DhcpMessage) (mac : MacAddress)
      (ip : IPv4Address) (pool : AddressPool)
    → IsMac mac
    → IsAddress ip
    → discover.chaddr ≡ some mac
    → request.chaddr ≡ some mac
    → request.xid ≡ discover.xid
    → get_address s.pool mac ≡ ok (ip, pool)
    → (s' : ServerState) × (on_discover e s discover
        ≡ ok (s', some (reply_fields discover.xid ip mac ++ reply_options e 2)))
      × (on_request e s' request
          ≡ ok (s', some (reply_fields discover.xid ip mac ++ reply_options e 5)))
      × (lookup mac s'.pool.taken_mac_addresses ≡ some ip)
discover_then_request e s discover request mac ip pool w v c c' same_xid got =
    let xids = assign ⦃o = code_order⦄ discover.xid ip s.xids in
    let s' : ServerState = record { pool = pool; xids = xids } in
    let entry : lookup ⦃o = code_order⦄ discover.xid xids ≡ some ip = ground (
      arith,
      lookup-assign ⦃o = code_order⦄ discover.xid discover.xid ip s.xids,
      same_refl ⦃o = code_order⦄ discover.xid,
    ) in
    (
      s',
      on_discover_offered e s discover mac c w ip pool v got,
      on_request_open e s' request mac c' w ip v
            (ap (λ x. lookup ⦃o = code_order⦄ x xids) same_xid ∙ entry)
          ∙ ap (λ x. ok (s', some (reply_fields x ip mac ++ reply_options e 5))) same_xid,
      get_address-lookup s.pool mac mac got ∙ ground (arith, same_refl mac),
    )
