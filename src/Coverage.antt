-- ===== src/Coverage.antt =====
-- coverage/: the question that the provider asks the coordinator, and the cache of the answers.
pub mod Client
pub mod Counts
pub mod Exchange
pub mod ExchangeLaws
pub mod Refresher
pub mod PassLaws
pub mod RefresherLaws
pub mod Relate
