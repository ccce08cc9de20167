-- ===== src/Utils.antt =====
-- utils/command_parser.go: ParseTTL and ParseCommandWithQuotes.
pub mod Ttl
pub mod Quotes
