-- ===== src/Examples.antt =====
-- The theorems at concrete inputs.
mod Words
mod Machine
mod Pool
mod Context
mod Crypto
mod Keys
mod Startup
mod Running
mod Ending
mod Commanding
mod Overlap
