-- ===== src/Protocol/Unbiased.antt =====
-- The threshold of the draw in src/laion_sieve/laion1m_v19_same_resident_formal_protocol.h.
