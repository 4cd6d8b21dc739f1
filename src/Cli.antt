-- ===== src/Cli.antt =====
-- cli/src: the command line. Its reader is the same class as that of the DHCP server, with three
-- more members; characters are compared in the "C" locale.
pub mod Reader
pub mod Numbers
pub mod Elements
pub mod Pattern
pub mod Tree
pub mod Words
pub mod Editor
pub mod Handlers
pub mod Console
pub mod Analyze
