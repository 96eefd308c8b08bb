-- ===== src/System/Tests.antt =====
-- php-system.c on a concrete output.
