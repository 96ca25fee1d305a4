-- ===== src/Tests.antt =====
-- Runs of the model on concrete inputs.
mod Packets
mod Tries
mod Tables
mod Serving
mod Sessions
mod Configuring
mod Subscriptions
mod LinkedLists
mod Broadcasts
mod Events
