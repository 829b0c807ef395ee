-- ===== src/Examples.antt =====
-- The theorems applied at concrete inputs, part by part.
mod Naming
mod Registering
mod Resolving
mod Wire
mod Serving
mod Storing
mod Interleaving
mod Guarding
mod Opening
mod Operating
mod Configuring
mod Connecting
