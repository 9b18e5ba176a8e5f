-- ===== src/Examples.antt =====
-- Tests of the definitions, and the theorems at inputs that meet their hypotheses.
mod Counting
mod Balancing
mod Routing
mod Listening
mod Headers
mod Requests
mod Caching
mod Configuring
mod Storing
mod Sending
mod Sealing
mod Cookies
mod Responding
