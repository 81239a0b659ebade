-- ===== src/Errors.antt =====
-- internal/errors: the error classes, the values that JavaScript code may throw, the predicates that
-- tell them apart, and the conversions `createUnknown` and `convertLibError`.
pub mod Codes
pub mod Value
pub mod Classes
pub mod Convert
pub mod Converters
pub mod Conversion
pub mod Tests
