-- ===== src/Client.antt =====
-- The parts of app/src/lib/leverx that run in the browser.
pub mod Intents
pub mod TradeMath
