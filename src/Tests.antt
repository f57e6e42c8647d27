-- ===== src/Tests.antt =====
-- Concrete runs of the library: the theorems at inputs that exercise the code.
mod Library
mod Filters
mod Policies
mod Caching
mod Chain
mod Serving
mod Transports
mod Connections
mod Requests
mod Service
mod Signatures
mod Anchors
mod Settings
mod Tokens
mod Starting
mod Certification
mod Pinning
