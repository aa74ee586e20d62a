-- ===== src/Examples.antt =====
-- The theorems of the other modules at concrete memories and lists.
mod Answers
mod Blocks
mod Boot
mod Conversions
mod Strings
mod Pages
mod Panic
mod Regions
mod Threads
mod Tokens
mod Devices
mod Digits
mod Formats
mod Numbers
mod Views
