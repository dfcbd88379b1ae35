-- ===== src/Providers/Mock/Recovery.antt =====
-- The mock provider and the scripted failures under the invocation handler.
