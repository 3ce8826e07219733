-- ===== src/DataType.antt =====
-- Source/DataSet/DataType and Source/Service/ServiceType: the messages that have a serializer. A
-- field of type `float` or `double` is its bit pattern, a text the list of its bytes.
pub mod Plain
pub mod Geometry
pub mod Stamped
pub mod Navigation
pub mod Services
pub mod Sizes
pub mod Transport
pub mod Kinds
pub mod TraitTable
pub mod Traits
mod Examples
