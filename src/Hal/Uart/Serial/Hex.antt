-- ===== src/Hal/Uart/Serial/Hex.antt =====
-- Hexadecimal numbers read back.
