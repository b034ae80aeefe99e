-- ===== src/Plist.antt =====
-- src/plist.c: nodes of a tree with arrays and dictionaries, and the lookup caches of these.
pub mod Nodes
pub mod Children
pub mod Array
pub mod Key
pub mod Dict
pub mod Values
