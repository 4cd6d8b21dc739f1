-- ===== src/DhcpOption.antt =====
-- dhcp/src/DhcpOption.hpp and DhcpOption.cpp: what an option may hold (`Description`), the table of
-- the options (`Table`), and reading and writing them (`Codec`). The other modules are proofs.
pub mod Description
pub mod Table
pub mod Codec
pub mod Checks
pub mod Steps
pub mod Values
pub mod Written
pub mod RoundTrip
pub mod Encoding
pub mod ByteOrder
pub mod Rounds
