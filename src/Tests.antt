-- ===== src/Tests.antt =====
-- The theorems at concrete inputs, and runs of the models.
mod TicketTests
mod FailTests
mod BanTests
mod AddrTests
mod RestoreTests
mod IgnoreTests
mod JailTests
mod FilterTests
mod CacheTests
mod ActionTests
mod ObserverTests
mod ServerTests
mod CommandTests
mod DatabaseTests
