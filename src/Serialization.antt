-- ===== src/Serialization.antt =====
-- Source/Serialization: byte streams, the serializers of the basic types and of containers, and
-- whole messages.
pub mod Stream
pub mod Serializer
pub mod Scalars
pub mod Times
pub mod Containers
pub mod Message
mod Examples
