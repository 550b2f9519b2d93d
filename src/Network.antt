-- ===== src/Network.antt =====
-- network/: mailboxes on the machines of a network.
pub mod Post
