-- ===== src/Tests.antt =====
-- Concrete worlds and inputs, and an application of each result to them.
mod Toy
mod Certificates
mod Entries
mod Images
mod Policies
mod Keys
mod Authorities
mod Pods
mod Reconciler
mod Oci
mod Tuf
mod Blob
