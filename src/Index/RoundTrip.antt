-- ===== src/Index/RoundTrip.antt =====
-- The whole of `compress_reversed_index`, and what is read from the index that it writes.
