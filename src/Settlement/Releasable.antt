-- ===== src/Settlement/Releasable.antt =====
-- When an order can be released.
