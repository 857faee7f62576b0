-- ===== src/Relay/Accept/Cap.antt =====
-- The cap on concurrent connections.
