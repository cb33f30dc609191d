-- ===== src/Sas/Tests.antt =====
-- The theorem of core/src/vc_sas.cpp at a concrete token.
