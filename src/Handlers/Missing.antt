-- ===== src/Handlers/Missing.antt =====
-- A path that leads nowhere.
