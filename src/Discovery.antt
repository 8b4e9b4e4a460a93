-- ===== src/Discovery.antt =====
-- internal/discovery: the functions that a profile gives the agents to look at.
pub mod HotList
mod Laws
mod Tests
