-- ===== src/Strvals.antt =====
-- pkg/strvals/parser.go: the values of `--set`.
pub mod Runes
pub mod Values
pub mod Parser
pub mod Print
pub mod Tests
