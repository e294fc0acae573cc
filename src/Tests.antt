-- ===== src/Tests.antt =====
-- Runs of the model on small inputs, and the theorems at inputs that meet their hypotheses.
mod Arrays
mod Dicts
mod Stacks
mod Sets
mod Strings
mod Lists
mod Buffers
mod Numbers
mod Identifiers
mod Spaces
