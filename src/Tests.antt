-- ===== src/Tests.antt =====
-- Runs of the modelled code on concrete inputs.
mod Turns
mod Agents
mod Stores
mod Spills
mod Registries
mod Providers
mod Replies
mod Memories
mod Requests
mod Platforms
mod Chats
mod Capabilities
