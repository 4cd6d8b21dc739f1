-- ===== src/Lib.antt =====
-- klevret is a router in user space. Its parts are a DHCP server (dhcp/), a command line for
-- configuration (cli/), a process that passes messages between them (core/), and helpers for TCP
-- (common/). The server takes datagrams from a queue that a thread fills, reads each as a message,
-- asks the address pool for an address, and sends an offer or an acknowledgement. The command line
-- follows the words of a line down a tree of commands, and sends an object to the message process,
-- which is to pass it on to the server.
--
-- Which file models what (paths from the repository's root):
--   Base                 numbers, byte sequences, results; an exception is `err` with its cause, and
--                        undefined behaviour, such as a read past the end, is `err undefined`
--   SortedMap            std::map and std::set, over any comparator that is a strict weak order
--   Endian               dhcp/src/endians.hpp; the host's byte order is an argument, `Endianness`
--   WrapperForParsing    dhcp/src/WrapperForParsing.hpp and .cpp
--   IpAddress            dhcp/src/IpAddress.hpp and .cpp; the masks are in IpAddress.Mask
--   HardwareAddress      dhcp/src/HardwareAddress.hpp and .cpp
--   DhcpOption           dhcp/src/DhcpOption.hpp and .cpp: Description, Table and Codec are the code
--   DhcpMessage          dhcp/src/DhcpMessage.hpp and .cpp
--   AddressPool          dhcp/src/AddressPool.hpp and .cpp
--   Server               dhcp/src/main.cpp; Server.StartUp is what comes before the loop,
--                        and Server.Serving the loop with its replies sent
--   UdpListener          dhcp/src/UdpListener.hpp and .cpp, with the loop of dhcp/src/main.cpp;
--                        UdpListener.Opening is the constructor and the destructor, and
--                        UdpListener.Sending is send_to
--   Core                 the queue of common/src/TcoListener.cpp and the loop of core/src/main.cpp
--   Sockets              the calls of the operating system, which is an argument, and
--                        common/src/Defer.hpp; Sockets.Client is send_cmd of
--                        cli/src/command_handlers.cpp and the sending of core/src/main.cpp
--   TcpListener          common/src/TcpListener.hpp and TcoListener.cpp: the listening socket;
--                        TcpListener.Threads is the accepting thread and the clients' handlers
--   NetworkInterface     dhcp/src/NetworkInterface.hpp and .cpp
--   ApiServer            TcpServer and ApiServer::start of dhcp/src/api_server.cpp
--   Singleton            ApiServer::instance and Console::Instance
--   Cli.Reader           cli/src/WrapperForParsing.cpp
--   Cli.Numbers          cli/src/ip_addresses.cpp, and the number tests of cli/src/Command.cpp
--   Cli.Elements, Cli.Pattern, Cli.Tree
--                        cli/src/Command.hpp and Command.cpp
--   Cli.Analyze          print_tree and analyze_command of cli/src/main.cpp; boost's split is the
--                        argument `split`, and Cli.Words says what is relied on
--   Cli.Console          cli/src/Console.hpp and Console.cpp; Cli.Console.Keys is getkey
--   Cli.Handlers         cli/src/command_handlers.cpp
--   Cli.Editor           the loop over the keys in cli/src/main.cpp
--   Tests                runs on concrete values, and each result applied once
-- The other modules are proofs. A function has the name of the source's function; where one name is
-- overloaded, a word is added (`of_string` and `of_uint32` for the constructors of IPv4Address,
-- `mac_lt` and `address_lt` for `operator<`). A member function takes its object as an argument, and
-- one that changes it returns the new object. What an uninitialised array holds is an argument,
-- `indeterminate`.
--
-- Numbers are natural numbers; a word wraps where the source's type does. An iterator is the list of
-- what lies behind it. Loops that are not over a list run on fuel: the loops over address ranges have
-- 2 ^ 32 rounds, the size of the address space; the loops over options and over the elements of an
-- option have a round for each byte that is left and one more, since a round steps over a byte at
-- least, and so have the rounds over a pattern, with one more for the test at the end.
--
-- Threads are step relations: a step is an access of shared state, or a whole block behind a mutex, by
-- one thread, and steps come in any order. Accesses that are not behind a mutex are taken one after
-- the other.
--
-- The operating system is a record of its calls, `Os`, on a state that only it knows. What its
-- documentation says of the descriptors that are open is the hypothesis `Accounts`, which a system of
-- two descriptors in Tests.Sockets meets. The calls of one thread come without a call of another in
-- between.
--
-- The terminal is an argument of `getkey` in the same way. How a call of send_cmd ends is an argument
-- of the handlers; `sends` of Cli.Handlers gives it for a system and the objects sent before.
--
-- Not modelled: the writing and reading of JSON, which are arguments; most output to std::cout; the
-- texts of exceptions; memory that is not freed; the descriptions of commands, which nothing reads.
pub mod Base
pub mod SortedMap
pub mod Endian
pub mod WrapperForParsing
pub mod IpAddress
pub mod HardwareAddress
pub mod DhcpOption
pub mod DhcpMessage
pub mod AddressPool
pub mod Server
pub mod UdpListener
pub mod Core
pub mod Sockets
pub mod TcpListener
pub mod NetworkInterface
pub mod ApiServer
pub mod Singleton
pub mod Cli
pub mod Tests
