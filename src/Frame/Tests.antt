-- ===== src/Frame/Tests.antt =====
-- The framing of a concrete message.
