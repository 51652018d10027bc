-- ===== src/Examples.antt =====
-- The theorems at concrete inputs.
mod Parsing
mod Hosts
mod Hashes
mod Services
mod Routes
mod Tables
mod Websites
mod Listings
mod Serving
mod Messages
mod Workers
mod Starting
mod Program
mod Asking
mod Interleaved
mod Proxy
